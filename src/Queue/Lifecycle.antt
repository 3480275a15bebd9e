-- ===== src/Queue/Lifecycle.antt =====
-- app/proxy/queue.py: the states of a request as a state machine, and proofs about its moves.
use guardian_llmprovider_gat.Prelude.{
  ℕ, ◌≤◌, ◌<◌, String, ◌≡◌, ◌⊎◌, refl, sym, subst, true, false, Option, some, arith, eq_iff,
  Bool-cases, inl, inr, str_eq,
}
use guardian_llmprovider_gat.Dict.{lookup, insert, lookup-insert}
use guardian_llmprovider_gat.QueueEntry.{
  QueueEntry, Status, queued, running, cancelling, is_final, is_active, is_queued, cancel_entry,
  finish_entry, start_entry, Outcome,
}
use guardian_llmprovider_gat.Queue.{
  InferenceQueue, prune_history, finish_tracked, cancel_tracked, enqueue,
}
use guardian_llmprovider_gat.Queue.Turn.{Event, apply, start}
use guardian_llmprovider_gat.Queue.Invariant.{Inv, lookup-prune, prune_fields}
use guardian_llmprovider_gat.Queue.Changes.{may_run-true}
use guardian_llmprovider_gat.Queue.Runs.{Closed, Inv-Closed, apply-Closed}

pub data Move : Status → Status → Type 0 where
  starts : (s t : Status) → s ≡ queued → t ≡ running → Move s t
  cancels : (s t : Status) → is_active s ≡ true → t ≡ cancelling → Move s t
  ends : (s t : Status) → is_final s ≡ false → is_final t ≡ true → Move s t

pub data Steps (s : Status) : Status → Type 0 where
  here : Steps s s
  next : {t u : Status} → Steps s t → Move t u → Steps s u

-- Every request of the second queue was in the first, in a state from which its own is reached.
abbrev pub Follows : InferenceQueue → InferenceQueue → Type 0
Follows before after =
    (k : String) (a : QueueEntry)
    → lookup k after.entries ≡ some a
    → (b : QueueEntry) × (lookup k before.entries ≡ some b) × Steps b.status a.status

-- The same, unless a request was registered.
record Lives (before after : InferenceQueue) : Type 0 where
  inv : Inv after
  grows : before.totals.queued ≤ after.totals.queued
  follows : (before.totals.queued < after.totals.queued) ⊎ Follows before after

Steps-more : {s t : Status} (u : Status) → Steps s t → (u ≡ t) ⊎ Move t u → Steps s u
Steps-more u r (inl e) = subst (Steps _) (sym e) r
Steps-more u r (inr m) = next r m

Follows-insert :
    (before : InferenceQueue) (q : InferenceQueue) (id : String) (e e' : QueueEntry)
    → lookup id q.entries ≡ some e
    → ((e'.status ≡ e.status) ⊎ Move e.status e'.status)
    → Follows before q
    → (k : String) (a : QueueEntry) → lookup k (insert id e' q.entries) ≡ some a
    → (b : QueueEntry) × (lookup k before.entries ≡ some b) × Steps b.status a.status
Follows-insert before q id e e' p m f k a x = elim (Bool-cases (str_eq id k)) [
  | inl h ↦
      let (b, y, r) = f id e p in
      let same : e' ≡ a = ground (arith, lookup-insert id k e' q.entries) in
      (
        b,
        subst (λ j. lookup j before.entries ≡ some b) ((eq_iff id k).0 h) y,
        subst (λ (c : QueueEntry). Steps b.status c.status) same (Steps-more e'.status r m),
      )
  | inr h ↦ f k a (ground (arith, lookup-insert id k e' q.entries))
]

cancel_entry-Move :
    (now : ℕ) (reason : String) (detail : Option String) (e : QueueEntry)
    → ((cancel_entry now reason detail e).status ≡ e.status)
      ⊎ Move e.status (cancel_entry now reason detail e).status
unfolding cancel_entry
cancel_entry-Move now reason detail e = elim (Bool-cases (is_queued e.status)) [
  | inl h ↦ rw h (inr (ends _ _ (ground arith) refl))
  | inr h ↦ rw h (elim (Bool-cases (is_active e.status)) [
    | inl g ↦ rw g (inr (cancels _ _ g refl))
    | inr g ↦ rw g (inl refl)
  ])
]

finish_entry-Move :
    (now : ℕ) (o : Outcome) (detail : Option String) (e : QueueEntry)
    → is_final e.status ≡ false
    → Move e.status (finish_entry now o detail e).status
unfolding finish_entry
finish_entry-Move now Outcome.completed detail e h = ends _ _ h refl
finish_entry-Move now _ detail e h = ends _ _ h refl

module _ (before : InferenceQueue) where
  spread :
      (q r : InferenceQueue)
      → r.totals.queued ≡ q.totals.queued
      → (Follows before q → Follows before r)
      → (before.totals.queued < q.totals.queued) ⊎ Follows before q
      → (before.totals.queued < r.totals.queued) ⊎ Follows before r
  spread q r e f (inl h) = inl (omega arith)
  spread q r e f (inr h) = inr (f h)

  count_outcome-queued :
      (now : ℕ) (id : String) (o : Outcome) (detail : Option String) (e : QueueEntry)
      (q : InferenceQueue)
      → (finish_tracked now id o detail e q).totals.queued ≡ q.totals.queued
  unfolding finish_tracked
  count_outcome-queued now id Outcome.completed detail e q = refl
  count_outcome-queued now id _ detail e q = refl

  Lives-Closed : Closed (λ _. Lives before)
  unfolding finish_tracked cancel_tracked enqueue start start_entry
  Lives-Closed = record {
    on_prune = λ now q v. record {
      inv = Inv-Closed.on_prune now q v.inv;
      grows = ground (arith, prune_fields now q, v.grows);
      follows =
          spread q (prune_history now q) (ground (arith, prune_fields now q))
            (λ f k a x. f k a (lookup-prune now q k a x)) v.follows;
    };
    on_finish = λ now id o detail e q v p f. record {
      inv = Inv-Closed.on_finish now id o detail e q v.inv p f;
      grows = omega (arith, v.grows, count_outcome-queued now id o detail e q);
      follows =
          spread q (finish_tracked now id o detail e q) (count_outcome-queued now id o detail e q)
            (Follows-insert before q id e (finish_entry now o detail e) p
              (inr (finish_entry-Move now o detail e (ground (arith, v.inv.ended id e p)))))
            v.follows;
    };
    on_cancel = λ now id reason detail e q v p. record {
      inv = Inv-Closed.on_cancel now id reason detail e q v.inv p;
      grows = ground (arith, v.grows);
      follows =
          spread q (cancel_tracked now id reason detail e q) (ground arith)
            (Follows-insert before q id e (cancel_entry now reason detail e) p
              (cancel_entry-Move now reason detail e))
            v.follows;
    };
    on_enqueue = λ now e q v at new fresh room. record {
      inv = Inv-Closed.on_enqueue now e q v.inv at new fresh room;
      grows = omega (arith, v.grows);
      follows = inl (omega (arith, v.grows));
    };
    on_start = λ now id e q v p h. record {
      inv = Inv-Closed.on_start now id e q v.inv p h;
      grows = v.grows;
      follows =
          spread q (start now id e q) refl
            (Follows-insert before q id e (start_entry now e) p
              (inr (starts _ _ (ground (arith, may_run-true id e q h)) refl)))
            v.follows;
    };
  }

-- A call or round that registers no request moves each tracked request along the state machine
-- only (queued to running; running or cancelling to cancelling; any of these to a final state),
-- and tracks no request that was not tracked before.
pub apply-Follows :
    (e : ℕ × Event) (q : InferenceQueue)
    → Inv q
    → (apply e q).totals.queued ≡ q.totals.queued
    → Follows q (apply e q)
apply-Follows e q v h = drop_new (l.follows)
  where
    l : Lives q (apply e q)
    l =
        apply-Closed (Lives-Closed q) e q
          (record { inv = v; grows = omega arith; follows = inr (λ k a x. (a, x, here)) })

    drop_new :
        (q.totals.queued < (apply e q).totals.queued) ⊎ Follows q (apply e q)
        → Follows q (apply e q)
    drop_new (inl x) = absurd (omega arith)
    drop_new (inr f) = f
