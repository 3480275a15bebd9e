-- ===== src/Queue/Invariant.antt =====
-- app/proxy/queue.py: the invariant of the queue, and lemmas on pruning.
use guardian_llmprovider_gat.Prelude.{
  ℕ, ◌+◌, ◌≤◌, ◌<◌, String, ◌≡◌, ◌≢◌, refl, Bool, true, Option, none, some, arith, if◌then◌else◌,
  length, count, count-contains,
}
use guardian_llmprovider_gat.Dict.{lookup, lookup-retain}
use guardian_llmprovider_gat.QueueEntry.{QueueEntry, is_final, is_active, is_queued, Status}
use guardian_llmprovider_gat.Queue.{InferenceQueue, prune_history, is_kept}

abbrev pub tally : (Status → Bool) → Option QueueEntry → ℕ
tally test none = 0
tally test (some e) = if test e.status then 1 else 0

-- Every request is in `waiting` as often as it is queued, and in `active` as often as it runs (so in
-- no list twice, in one list at most, and with the state that the list says); the slots and the
-- depth are kept; an owner holds one slot at most; what is final has ended; and every request ever
-- queued is counted in one place.
pub record Inv (q : InferenceQueue) : Type 0 where
  pub waiting_exact : (k : String) → count k q.waiting ≡ tally is_queued (lookup k q.entries)
  pub active_exact : (k : String) → count k q.active ≡ tally is_active (lookup k q.entries)
  pub slots : length q.active ≤ q.max_concurrent
  pub depth : (d : ℕ) → q.max_queue_depth ≡ some d → length q.waiting ≤ d
  pub owners :
      (i j : String) (a b : QueueEntry)
      → lookup i q.entries ≡ some a
      → lookup j q.entries ≡ some b
      → is_active a.status ≡ true
      → is_active b.status ≡ true
      → a.owner_id ≡ b.owner_id
      → i ≡ j
  pub ended :
      (k : String) (e : QueueEntry)
      → lookup k q.entries ≡ some e
      → is_final e.status ≡ true
      → e.completed_at ≢ none
  pub conserved :
      q.totals.queued
      ≡ q.totals.completed
        + q.totals.cancelled
        + q.totals.failed
        + q.totals.expired
        + length q.waiting
        + length q.active
  pub timed_out : q.totals.timeouts ≤ q.totals.expired

pub prune_fields :
    (now : ℕ) (q : InferenceQueue)
    → ((prune_history now q).waiting ≡ q.waiting)
      × ((prune_history now q).active ≡ q.active)
      × ((prune_history now q).totals ≡ q.totals)
      × ((prune_history now q).max_concurrent ≡ q.max_concurrent)
      × ((prune_history now q).max_queue_depth ≡ q.max_queue_depth)
      × ((prune_history now q).queue_timeout ≡ q.queue_timeout)
unfolding prune_history
prune_fields now q = ground arith

kept_waiting :
    (now : ℕ) (q : InferenceQueue) (k : String) (e : QueueEntry)
    → 0 < count k q.waiting + count k q.active
    → is_kept now q k e ≡ true
unfolding is_kept
kept_waiting now q k e h = ground (arith, count-contains k q.waiting, count-contains k q.active)

pub lookup-prune :
    (now : ℕ) (q : InferenceQueue) (k : String) (e : QueueEntry)
    → lookup k (prune_history now q).entries ≡ some e
    → lookup k q.entries ≡ some e
unfolding prune_history
lookup-prune now q k e h = ground (arith, lookup-retain (is_kept now q) k q.entries)

tally-prune :
    (test : Status → Bool) (now : ℕ) (q : InferenceQueue) (k : String)
    → (tally test (lookup k q.entries) ≢ 0 → 0 < count k q.waiting + count k q.active)
    → tally test (lookup k (prune_history now q).entries) ≡ tally test (lookup k q.entries)
unfolding prune_history
tally-prune test now q k h = go (lookup k q.entries) refl
  where
    go :
        (o : Option QueueEntry)
        → lookup k q.entries ≡ o
        → tally test (lookup k (prune_history now q).entries) ≡ tally test (lookup k q.entries)
    go none p = ground (arith, lookup-retain (is_kept now q) k q.entries)
    go (some e) p =
        ground (arith, lookup-retain (is_kept now q) k q.entries, kept_waiting now q k e)

pub prune-Inv : (now : ℕ) {q : InferenceQueue} → Inv q → Inv (prune_history now q)
prune-Inv now {q} v = record {
  waiting_exact = λ k. ground (
    arith,
    prune_fields now q,
    v.waiting_exact k,
    tally-prune is_queued now q k (λ h. ground (arith, v.waiting_exact k)),
  );
  active_exact = λ k. ground (
    arith,
    prune_fields now q,
    v.active_exact k,
    tally-prune is_active now q k (λ h. ground (arith, v.active_exact k)),
  );
  slots = ground (arith, prune_fields now q);
  depth = λ d e. ground (arith, prune_fields now q, v.depth d);
  owners = λ i j a b p r. v.owners i j a b (lookup-prune now q i a p) (lookup-prune now q j b r);
  ended = λ k e p. v.ended k e (lookup-prune now q k e p);
  conserved = ground (arith, prune_fields now q);
  timed_out = ground (arith, prune_fields now q);
}
