-- ===== src/Queue/Changes.antt =====
-- app/proxy/queue.py: lemmas on the calls that change one entry, against the invariant.
use guardian_llmprovider_gat.Prelude.{
  ℕ, suc, ◌+◌, ◌≤◌, ◌<◌, String, ◌≡◌, ◌≢◌, refl, ap, true, false, Option, none, some, List, [], ◌∷◌,
  arith, eq_iff, length, length-append, count, count-append, count-remove, length-remove,
  length-remove-le, remove-absent, remove,
}
use guardian_llmprovider_gat.Dict.{lookup, insert, lookup-insert}
use guardian_llmprovider_gat.QueueEntry.{
  QueueEntry, Outcome, is_final, is_active, is_queued, finish_entry, cancel_entry, start_entry,
}
use guardian_llmprovider_gat.Queue.{
  InferenceQueue, finish_tracked, cancel_tracked, enqueue, owner_has_active_request, count_outcome,
}
use guardian_llmprovider_gat.Queue.Turn.{start, may_run, heads, pop_front}
use guardian_llmprovider_gat.Queue.Invariant.{Inv}

-- A change of one entry, as the fields of the invariant see it.
module _ (q : InferenceQueue) (id : String) (e : QueueEntry) (v : Inv q) where
  owners-insert :
      ((k : String) (a : QueueEntry)
        → lookup k q.entries ≡ some a
        → is_active a.status ≡ true
        → a.owner_id ≡ e.owner_id
        → is_active e.status ≡ true
        → k ≡ id)
      → (i j : String) (a b : QueueEntry) → lookup i (insert id e q.entries) ≡ some a
      → lookup j (insert id e q.entries) ≡ some b
      → is_active a.status ≡ true
      → is_active b.status ≡ true
      → a.owner_id ≡ b.owner_id
      → i ≡ j
  owners-insert sole i j a b p r x y o = ground (
    arith,
    lookup-insert id i e q.entries,
    lookup-insert id j e q.entries,
    v.owners i j a b,
    eq_iff id i,
    eq_iff id j,
    sole i a,
    sole j b,
  )

  ended-insert :
      (is_final e.status ≡ true → e.completed_at ≢ none)
      → (k : String) (a : QueueEntry) → lookup k (insert id e q.entries) ≡ some a
      → is_final a.status ≡ true
      → a.completed_at ≢ none
  ended-insert h k a p f n = ground (arith, lookup-insert id k e q.entries, v.ended k a, h)

pub finish_entry-final :
    (now : ℕ) (o : Outcome) (detail : Option String) (e : QueueEntry)
    → (is_final (finish_entry now o detail e).status ≡ true)
      × (is_active (finish_entry now o detail e).status ≡ false)
      × (is_queued (finish_entry now o detail e).status ≡ false)
      × ((finish_entry now o detail e).completed_at ≡ some now)
unfolding finish_entry
finish_entry-final now Outcome.completed detail e = (refl, refl, refl, refl)
finish_entry-final now _ detail e = (refl, refl, refl, refl)

finish_lengths :
    (q : InferenceQueue) (id : String) (e : QueueEntry)
    → Inv q
    → lookup id q.entries ≡ some e
    → is_final e.status ≡ false
    → length q.waiting + length q.active
      ≡ suc (length (remove id q.waiting) + length (remove id q.active))
finish_lengths q id e v p h = ground (
  arith,
  v.waiting_exact id,
  v.active_exact id,
  length-remove id q.waiting,
  length-remove id q.active,
  remove-absent id q.waiting,
  remove-absent id q.active,
)

pub finish_tracked-Inv :
    (now : ℕ) (id : String) (o : Outcome) (detail : Option String) (e : QueueEntry)
    (q : InferenceQueue)
    → Inv q
    → lookup id q.entries ≡ some e
    → is_final e.status ≡ false
    → Inv (finish_tracked now id o detail e q)
unfolding finish_tracked
finish_tracked-Inv now id o detail e q v p h =
    let f = finish_entry-final now o detail e in
    record {
      waiting_exact = λ k. ground (
        arith,
        f,
        v.waiting_exact k,
        v.waiting_exact id,
        count-remove id k q.waiting,
        lookup-insert id k (finish_entry now o detail e) q.entries,
        eq_iff id k,
      );
      active_exact = λ k. ground (
        arith,
        f,
        v.active_exact k,
        v.active_exact id,
        count-remove id k q.active,
        lookup-insert id k (finish_entry now o detail e) q.entries,
        eq_iff id k,
      );
      slots = omega (arith, length-remove-le id q.active, v.slots);
      depth = λ d x. omega (arith, length-remove-le id q.waiting, v.depth d x);
      owners = owners-insert q id (finish_entry now o detail e) v (λ k a x y o' c. cc f.1);
      ended = ended-insert q id (finish_entry now o detail e) v (λ _ n. cc (f.3));
      conserved = go o;
      timed_out = go' o;
    }
  where
    gap :
        length q.waiting + length q.active
        ≡ suc (length (remove id q.waiting) + length (remove id q.active))
    gap = finish_lengths q id e v p h

    go :
        (x : Outcome)
        → (count_outcome x q.totals).queued
          ≡ (count_outcome x q.totals).completed
            + (count_outcome x q.totals).cancelled
            + (count_outcome x q.totals).failed
            + (count_outcome x q.totals).expired
            + length (remove id q.waiting)
            + length (remove id q.active)
    go Outcome.completed = omega (arith, gap, v.conserved)
    go _ = omega (arith, gap, v.conserved)

    go' : (x : Outcome) → (count_outcome x q.totals).timeouts ≤ (count_outcome x q.totals).expired
    go' Outcome.completed = v.timed_out
    go' _ = omega (arith, v.timed_out)

cancel_entry-shape :
    (now : ℕ) (reason : String) (detail : Option String) (e : QueueEntry)
    → (is_active (cancel_entry now reason detail e).status ≡ is_active e.status)
      × (is_queued (cancel_entry now reason detail e).status ≡ false)
      × ((cancel_entry now reason detail e).owner_id ≡ e.owner_id)
      × ((is_final e.status ≡ true → e.completed_at ≢ none)
          → is_final (cancel_entry now reason detail e).status ≡ true
          → (cancel_entry now reason detail e).completed_at ≢ none)
unfolding cancel_entry
cancel_entry-shape now reason detail e =
    (ground arith, ground arith, ground arith, λ a b c. ground arith)

pub cancel_tracked-Inv :
    (now : ℕ) (id reason : String) (detail : Option String) (e : QueueEntry) (q : InferenceQueue)
    → Inv q
    → lookup id q.entries ≡ some e
    → Inv (cancel_tracked now id reason detail e q)
unfolding cancel_tracked
cancel_tracked-Inv now id reason detail e q v p =
    let e' = cancel_entry now reason detail e in
    let f = cancel_entry-shape now reason detail e in
    record {
      waiting_exact = λ k. ground (
        arith,
        f.1,
        v.waiting_exact k,
        v.waiting_exact id,
        count-remove id k q.waiting,
        lookup-insert id k e' q.entries,
        eq_iff id k,
      );
      active_exact = λ k. ground (
        arith,
        f.0,
        v.active_exact k,
        v.active_exact id,
        lookup-insert id k e' q.entries,
        eq_iff id k,
      );
      slots = v.slots;
      depth = λ d x. ground (arith, length-remove-le id q.waiting, v.depth d x);
      owners =
          owners-insert q id e' v
            (λ k a x y o c. v.owners k id a e x p y (ground (arith, f.0)) (ground (arith, f.2)));
      ended = ended-insert q id e' v (f.3 (v.ended id e p));
      conserved = ground (arith, v.conserved, v.waiting_exact id, length-remove id q.waiting);
      timed_out = ground (arith, v.timed_out);
    }

pub enqueue-Inv :
    (e : QueueEntry) (q : InferenceQueue)
    → Inv q
    → is_queued e.status ≡ true
    → lookup e.request_id q.entries ≡ none
    → ((d : ℕ) → q.max_queue_depth ≡ some d → length q.waiting < d)
    → Inv (enqueue e q)
unfolding enqueue
enqueue-Inv e q v new fresh room = record {
  waiting_exact = λ k. ground (
    arith,
    v.waiting_exact k,
    count-append k q.waiting (e.request_id ∷ []),
    lookup-insert e.request_id k e q.entries,
    eq_iff e.request_id k,
  );
  active_exact = λ k.
      ground
        (arith, v.active_exact k, lookup-insert e.request_id k e q.entries, eq_iff e.request_id k);
  slots = v.slots;
  depth = λ d x. ground (arith, room d, length-append q.waiting (e.request_id ∷ []));
  owners = owners-insert q e.request_id e v (λ k a x y o c. ground arith);
  ended = ended-insert q e.request_id e v (λ f. ground arith);
  conserved = ground (arith, v.conserved, length-append q.waiting (e.request_id ∷ []));
  timed_out = v.timed_out;
}

-- Where the test for a running request of the owner fails, no listed request of the owner runs.
pub no_active_request :
    (owner k : String) (a : QueueEntry) (q : InferenceQueue) (active : List String)
    → owner_has_active_request owner active q.entries ≡ false
    → 0 < count k active
    → lookup k q.entries ≡ some a
    → is_active a.status ≡ true
    → a.owner_id ≢ owner
unfolding owner_has_active_request
no_active_request owner k a q [] h c p x o = elim c [ ]
no_active_request owner k a q (i ∷ active) h c p x o = ground (
  arith,
  eq_iff i k,
  eq_iff a.owner_id owner,
  no_active_request owner k a q active,
  λ (z : i ≡ k). ap (λ (j : String). lookup j q.entries) z,
)

pub heads_lem : (id : String) (w : List String) → heads id w ≡ true → w ≡ id ∷ pop_front w
unfolding heads pop_front
heads_lem id [] h = cc
heads_lem id (i ∷ w) h = ground (arith, eq_iff i id)

-- What the guard of a grant gives.
pub may_run-true :
    (id : String) (e : QueueEntry) (q : InferenceQueue)
    → may_run id e q ≡ true
    → (is_queued e.status ≡ true)
      × (q.waiting ≡ id ∷ pop_front q.waiting)
      × (length q.active < q.max_concurrent)
      × (owner_has_active_request e.owner_id q.active q.entries ≡ false)
unfolding may_run
may_run-true id e q h = ground (arith, heads_lem id q.waiting)

pub start-Inv :
    (now : ℕ) (id : String) (e : QueueEntry) (q : InferenceQueue)
    → Inv q
    → lookup id q.entries ≡ some e
    → may_run id e q ≡ true
    → Inv (start now id e q)
unfolding start start_entry
start-Inv now id e q v p h =
    let g = may_run-true id e q h in
    let e' = start_entry now e in
    record {
      waiting_exact = λ k. ground (
        arith,
        g,
        ap (count k) g.1,
        v.waiting_exact k,
        lookup-insert id k e' q.entries,
        eq_iff id k,
      );
      active_exact = λ k. ground (
        arith,
        g,
        v.active_exact k,
        count-append k q.active (id ∷ []),
        lookup-insert id k e' q.entries,
        eq_iff id k,
      );
      slots = ground (arith, g, length-append q.active (id ∷ []));
      depth = λ d x. ground (arith, ap length g.1, v.depth d x);
      owners = owners-insert q id e' v (λ k a x y o c. absurd (
          no_active_request e.owner_id k a q q.active g.3 (ground (arith, v.active_exact k)) x y
            o));
      ended = ended-insert q id e' v (λ f. ground arith);
      conserved = ground (arith, v.conserved, ap length g.1, length-append q.active (id ∷ []));
      timed_out = v.timed_out;
    }
