-- ===== src/Queue/Submission.antt =====
-- app/proxy/queue.py: proofs about `submit`, and about `finish` called again.
use guardian_llmprovider_gat.Prelude.{
  ℕ, ◌<◌, String, ◌≡◌, ◌≢◌, ◌⊎◌, refl, ap, true, ◌&&◌, Option, none, some, [], ◌∷◌, ◌++◌, arith,
  eq_iff, Option-cases, inl, inr, length, Result, ok, err, or_text, is_some,
}
use guardian_llmprovider_gat.Dict.{lookup, lookup-insert}
use guardian_llmprovider_gat.QueueEntry.{
  QueueEntry, Outcome, is_final, normalize_client_id, finish_entry,
}
use guardian_llmprovider_gat.Queue.{
  InferenceQueue, SubmitError, prune_history, submit, admit, submitted, enqueue, finish,
  finish_tracked,
}
use guardian_llmprovider_gat.Queue.Changes.{finish_entry-final}
use guardian_llmprovider_gat.Queue.Invariant.{lookup-prune}

-- What a submission needs: an authenticated client, a resolved depth that is not reached, and an id
-- that is not in use.
pub record Admissible (client : Option String) (id : String) (q : InferenceQueue) : Type 0 where
  pub authenticated : normalize_client_id client ≢ none
  pub room : (d : ℕ) × (q.max_queue_depth ≡ some d) × (length q.waiting < d)
  pub unused : lookup id q.entries ≡ none

-- An entry that is let in is admissible, under the id that was asked for.
admit-Admissible :
    (now : ℕ) (uuid : String) (client owner : Option String) (model : String) (id : Option String)
    (q : InferenceQueue) (e : QueueEntry)
    → admit now uuid client owner model id q ≡ ok e
    → (e.request_id ≡ or_text id uuid) × Admissible client (or_text id uuid) q
unfolding admit
admit-Admissible now uuid client owner model id q e h = (
  ground arith,
  elim (Option-cases q.max_queue_depth) [
    | inl d ↦ absurd (ground arith)
    | inr (d, x) ↦ record {
      authenticated = ground arith;
      room = (d, x, ground arith);
      unused = ground arith;
    }
  ],
)

-- A submission fails without an effect on the queue but the pruning of its history; one that
-- succeeds returns its id, which then stands at the end of the line, and had an authenticated
-- client, room within the depth and a new id.
pub submit_outcome :
    (now : ℕ) (uuid : String) (client owner : Option String) (model : String) (id : Option String)
    (q : InferenceQueue)
    → let r = prune_history now q in
      let (result, q') = submit now uuid client owner model id q in
      ((x : SubmitError) × (result ≡ err x) × (q' ≡ r))
      ⊎ ((result ≡ ok (or_text id uuid))
          × (q'.waiting ≡ r.waiting ++ or_text id uuid ∷ [])
          × Admissible client (or_text id uuid) r)
unfolding submit enqueue
submit_outcome now uuid client owner model id q =
    go (admit now uuid client owner model id (prune_history now q)) refl
  where
    r : InferenceQueue
    r = prune_history now q

    go :
        (a : Result SubmitError QueueEntry)
        → admit now uuid client owner model id r ≡ a
        → ((x : SubmitError) × ((submitted r a).0 ≡ err x) × ((submitted r a).1 ≡ r))
          ⊎ (((submitted r a).0 ≡ ok (or_text id uuid))
              × ((submitted r a).1.waiting ≡ r.waiting ++ or_text id uuid ∷ [])
              × Admissible client (or_text id uuid) r)
    go (err x) p = inl (x, refl, refl)
    go (ok e) p =
        let (i, v) = admit-Admissible now uuid client owner model id r e p in
        inr (ap ok i, ap (λ (j : String). r.waiting ++ j ∷ []) i, v)

finish-final :
    (now : ℕ) (id : String) (o : Outcome) (detail : Option String) (q : InferenceQueue)
    (a : QueueEntry)
    → lookup id (finish now id o detail q).1.entries ≡ some a
    → (is_some a.completed_at && is_final a.status) ≡ true
unfolding finish finish_tracked
finish-final now id o detail q a h = elim (Option-cases (lookup id (prune_history now q).entries)) [
  | inl p ↦ ground arith
  | inr (e, p) ↦ ground (
    arith,
    lookup-insert id id (finish_entry now o detail e) (prune_history now q).entries,
    eq_iff id id,
    finish_entry-final now o detail e,
  )
]

finish_final-idle :
    (now : ℕ) (id : String) (o : Outcome) (detail : Option String) (q : InferenceQueue)
    → ((a : QueueEntry)
        → lookup id q.entries ≡ some a
        → (is_some a.completed_at && is_final a.status) ≡ true)
    → finish now id o detail q ≡ (0, prune_history now q)
unfolding finish
finish_final-idle now id o detail q h =
    elim (Option-cases (lookup id (prune_history now q).entries)) [
      | inl p ↦ rw (p, finish) refl
      | inr (e, p) ↦ rw (p, finish, h e (lookup-prune now q id e p)) refl
    ]

-- A request is finalised once: a second `finish`, with any outcome, frees nothing, counts nothing
-- and changes no request, but for the pruning of the history.
pub finish_twice :
    (now later : ℕ) (id : String) (o p : Outcome) (detail comment : Option String)
    (q : InferenceQueue)
    → finish later id p comment (finish now id o detail q).1
      ≡ (0, prune_history later (finish now id o detail q).1)
finish_twice now later id o p detail comment q =
    finish_final-idle later id p comment (finish now id o detail q).1
      (finish-final now id o detail q)
