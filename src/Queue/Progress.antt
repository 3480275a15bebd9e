-- ===== src/Queue/Progress.antt =====
-- app/proxy/queue.py: proofs about the rounds of `wait_for_turn` and the change event.
use guardian_llmprovider_gat.Prelude.{
  ℕ, ◌+◌, ◌≤◌, ◌<◌, String, ◌≡◌, ◌≢◌, ◌↔◌, ◌⊎◌, refl, ap, true, false, none, some, List, [], ◌∷◌,
  arith, eq_iff, Bool-cases, Option-cases, inl, inr, length, contains, contains-count, count,
  count-remove, remove, or_text,
}
use guardian_llmprovider_gat.Dict.{lookup, lookup-insert}
use guardian_llmprovider_gat.QueueEntry.{QueueEntry, Status, Outcome, is_active, finish_entry}
use guardian_llmprovider_gat.Queue.{
  InferenceQueue, prune_history, finish_tracked, cancel_tracked, enqueue, finish,
  owner_has_active_request, expire_queued_request, queue_wait_remaining,
}
use guardian_llmprovider_gat.Queue.Turn.{
  granted, raised, Event, apply, wait_for_turn, wait_entry, may_run, heads, start, pop_front,
  out_of_time,
}
use guardian_llmprovider_gat.Queue.Invariant.{Inv, prune_fields, prune-Inv, lookup-prune}
use guardian_llmprovider_gat.Queue.Changes.{may_run-true, no_active_request}
use guardian_llmprovider_gat.Queue.Runs.{Closed, apply-Closed}

-- No running request belongs to the owner.
abbrev pub OwnerIdle : String → InferenceQueue → Type 0
OwnerIdle owner q =
    (k : String) (a : QueueEntry)
    → lookup k q.entries ≡ some a
    → is_active a.status ≡ true
    → a.owner_id ≢ owner

-- The wait budget has not run out.
abbrev pub InBudget : ℕ → QueueEntry → InferenceQueue → Type 0
InBudget now e q = (q.queue_timeout ≡ 0) ⊎ (now < e.enqueued_at + q.queue_timeout)

pub record Ready (now : ℕ) (id : String) (e : QueueEntry) (q : InferenceQueue) : Type 0 where
  pub queued : e.status ≡ Status.queued
  pub not_cancelled : e.cancel_set ≡ false
  pub in_budget : InBudget now e q
  pub first : (rest : List String) × (q.waiting ≡ id ∷ rest)
  pub slot : length q.active < q.max_concurrent
  pub idle : OwnerIdle e.owner_id q

-- A listed request of the owner that runs is found.
OwnerIdle-scan :
    (owner : String) (q : InferenceQueue) (active : List String)
    → OwnerIdle owner q
    → owner_has_active_request owner active q.entries ≡ false
unfolding owner_has_active_request
OwnerIdle-scan owner q [] h = refl
OwnerIdle-scan owner q (i ∷ active) h = elim (Option-cases (lookup i q.entries)) [
  | inl p ↦ ground (arith, p, OwnerIdle-scan owner q active h)
  | inr (a, p) ↦
      ground (arith, p, h i a p, eq_iff a.owner_id owner, OwnerIdle-scan owner q active h)
]

ready-budget :
    (now : ℕ) (e : QueueEntry) (q : InferenceQueue)
    → (out_of_time (queue_wait_remaining now e q) ≡ false) ↔ InBudget now e q
unfolding out_of_time queue_wait_remaining
ready-budget now e q = (λ h. ground arith, λ h. ground arith)

Ready-may_run :
    (now : ℕ) (id : String) (e : QueueEntry) (q : InferenceQueue)
    → Ready now id e q
    → may_run id e q ≡ true
unfolding may_run heads
Ready-may_run now id e q r =
    let i = OwnerIdle-scan e.owner_id q q.active r.idle in
    ground (arith, r.queued, r.first, r.slot, i, eq_iff id id)

-- The round of a tracked request is a grant exactly when it is queued, not cancelled, within its
-- wait budget, first in line, a slot is free, and its owner has no running request.
pub wait_entry-granted :
    (now : ℕ) (id : String) (e : QueueEntry) (q : InferenceQueue)
    → Inv q
    → ((wait_entry now id e q).0 ≡ granted) ↔ Ready now id e q
unfolding wait_entry
wait_entry-granted now id e q v = (to, from)
  where
    to : (wait_entry now id e q).0 ≡ granted → Ready now id e q
    to h =
        let m : may_run id e q ≡ true = ground arith in
        let g = may_run-true id e q m in
        let b : out_of_time (queue_wait_remaining now e q) ≡ false = ground arith in
        record {
          queued = ground (arith, g.0);
          not_cancelled = ground arith;
          in_budget = (ready-budget now e q).0 b;
          first = (pop_front q.waiting, g.1);
          slot = g.2;
          idle = λ k a p x.
              no_active_request e.owner_id k a q q.active g.3 (ground (arith, v.active_exact k)) p
                x;
        }

    from : Ready now id e q → (wait_entry now id e q).0 ≡ granted
    from r =
        let b = (ready-budget now e q).1 r.in_budget in
        let m = Ready-may_run now id e q r in ground (arith, r.queued, r.not_cancelled)

-- A queued request is never pruned.
lookup-prune_queued :
    (now : ℕ) (id : String) (e : QueueEntry) (q : InferenceQueue)
    → Inv q
    → lookup id q.entries ≡ some e
    → e.status ≡ Status.queued
    → lookup id (prune_history now q).entries ≡ some e
lookup-prune_queued now id e q v p s =
    elim (Option-cases (lookup id (prune_history now q).entries)) [
      | inl x ↦ absurd (
          ground (
            arith,
            v.waiting_exact id,
            (prune-Inv now v).waiting_exact id,
            prune_fields now q,
            ap (count id) (prune_fields now q).0,
          ))
      | inr (a, x) ↦ ground (arith, lookup-prune now q id a x)
    ]

finish-queued :
    (now : ℕ) (id : String) (o : Outcome) (e : QueueEntry) (q : InferenceQueue)
    → Inv q
    → lookup id q.entries ≡ some e
    → e.status ≡ Status.queued
    → (finish now id o none q).1 ≡ finish_tracked now id o none e (prune_history now q)
unfolding finish
finish-queued now id o e q v p s =
    let f = lookup-prune_queued now id e q v p s in ground (arith, f, s)

expire-queued :
    (now : ℕ) (id : String) (e : QueueEntry) (q : InferenceQueue)
    → Inv q
    → lookup id q.entries ≡ some e
    → e.status ≡ Status.queued
    → expire_queued_request now id q ≡ (
      or_text e.cancel_reason "queue_timeout",
      finish_tracked now id Outcome.timeout none e (prune_history now (prune_history now q)),
    )
unfolding expire_queued_request
expire-queued now id e q v p s =
    let f = lookup-prune_queued now id e q v p s in
    let g = finish-queued now id Outcome.timeout e (prune_history now q) (prune-Inv now v) f s in
    ground (arith, f, s, g)

expired_after :
    (now : ℕ) (id : String) (e : QueueEntry) (q : InferenceQueue)
    → Inv q
    → lookup id q.entries ≡ some e
    → e.status ≡ Status.queued
    → let q' = finish_tracked now id Outcome.timeout none e (prune_history now q) in
      (contains id q'.waiting ≡ false)
      × (lookup id q'.entries ≡ some (finish_entry now Outcome.timeout none e))
      × (q'.totals.timeouts ≡ q.totals.timeouts + 1)
      × (q'.active ≡ remove id q.active)
unfolding finish_tracked
expired_after now id e q v p s =
    let r = prune_history now q in
    (
      elim (Bool-cases (contains id (remove id r.waiting))) [
        | inl c ↦ absurd (
            ground (
              arith,
              contains-count id (remove id r.waiting) c,
              count-remove id id r.waiting,
              (prune-Inv now v).waiting_exact id,
              lookup-prune_queued now id e q v p s,
              eq_iff id id,
            ))
        | inr c ↦ c
      ],
      ground (
        arith,
        lookup-insert id id (finish_entry now Outcome.timeout none e) r.entries,
        eq_iff id id,
      ),
      ground (arith, prune_fields now q),
      ground (arith, prune_fields now q),
    )

wait_for_turn-tracked :
    (now : ℕ) (id : String) (e : QueueEntry) (q : InferenceQueue)
    → lookup id (prune_history now q).entries ≡ some e
    → wait_for_turn now id q ≡ wait_entry now id e (prune_history now q)
unfolding wait_for_turn
wait_for_turn-tracked now id e q p = rw (p, wait_for_turn)

wait_entry-expires :
    (now : ℕ) (id : String) (e : QueueEntry) (q : InferenceQueue)
    → e.status ≡ Status.queued
    → e.cancel_set ≡ false
    → 0 < q.queue_timeout
    → e.enqueued_at + q.queue_timeout ≤ now
    → wait_entry now id e q
      ≡ (raised (expire_queued_request now id q).0, (expire_queued_request now id q).1)
unfolding wait_entry out_of_time queue_wait_remaining
wait_entry-expires now id e q s c t b = ground (arith, s, c)

-- A queued request whose wait budget has run out is refused in its next round, even if a slot is
-- free: the round raises its cancel reason (`queue_timeout` if it has none), and the request has
-- left the line, is tracked as expired and is counted as one time-out.
pub wait_for_turn-expired :
    (now : ℕ) (id : String) (e : QueueEntry) (q : InferenceQueue)
    → Inv q
    → lookup id q.entries ≡ some e
    → e.status ≡ Status.queued
    → e.cancel_set ≡ false
    → 0 < q.queue_timeout
    → e.enqueued_at + q.queue_timeout ≤ now
    → let (turn, q') = wait_for_turn now id q in
      (turn ≡ raised (or_text e.cancel_reason "queue_timeout"))
      × (contains id q'.waiting ≡ false)
      × (lookup id q'.entries ≡ some (finish_entry now Outcome.timeout none e))
      × (q'.totals.timeouts ≡ q.totals.timeouts + 1)
wait_for_turn-expired now id e q v p s c t b =
    let r = prune_history now q in
    let f = lookup-prune_queued now id e q v p s in
    let w = prune-Inv now v in
    let x = expire-queued now id e r w f s in
    let y =
      expired_after now id e (prune_history now r) (prune-Inv now w)
        (lookup-prune_queued now id e r w f s) s in
    let z =
      wait_entry-expires now id e r s c (ground (arith, prune_fields now q))
        (ground (arith, prune_fields now q)) in
    rw (wait_for_turn-tracked now id e q f, z, x)
      (refl, y.0, y.1, ground (arith, y.2, prune_fields now q, prune_fields now r))

-- A sleeper that started at this change count.
abbrev Noticed : InferenceQueue → InferenceQueue → Type 0
Noticed before after =
    (before.changes ≤ after.changes)
    × (((after.waiting ≡ before.waiting) × (after.active ≡ before.active))
        ⊎ (before.changes < after.changes))

Noticed-Closed : (before : InferenceQueue) → Closed (λ _. Noticed before)
unfolding prune_history finish_tracked cancel_tracked enqueue start
Noticed-Closed before = record {
  on_prune = λ now q v. ground arith;
  on_finish = λ now id o detail e q v p f. (omega arith, inr (omega arith));
  on_cancel = λ now id reason detail e q v p. (omega arith, inr (omega arith));
  on_enqueue = λ now e q v at new fresh room. (omega arith, inr (omega arith));
  on_start = λ now id e q v p h. (omega arith, inr (omega arith));
}

-- No change of the waiting list or of the slots goes unnoticed: each call or round that changes
-- them sets the change event, so a waiter that fell asleep before it wakes up.
pub no_lost_wakeup :
    (e : ℕ × Event) (q : InferenceQueue)
    → ((apply e q).waiting ≢ q.waiting) ⊎ ((apply e q).active ≢ q.active)
    → q.changes < (apply e q).changes
no_lost_wakeup e q h =
    let n = apply-Closed (Noticed-Closed q) e q (omega arith, inl (refl, refl)) in ground arith
