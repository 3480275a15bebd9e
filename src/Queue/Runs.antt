-- ===== src/Queue/Runs.antt =====
-- app/proxy/queue.py: proofs about the runs of the event loop.
use guardian_llmprovider_gat.Prelude.{
  ℕ, ◌≤◌, ◌<◌, String, ◌≡◌, refl, true, false, Option, none, some, List, [], ◌∷◌, arith, Bool-cases,
  Option-cases, inl, inr, length, Result, ok, err, is_some, ◌&&◌, or_text,
}
use guardian_llmprovider_gat.Dict.{lookup}
use guardian_llmprovider_gat.QueueEntry.{QueueEntry, Outcome, is_final, is_queued, is_visible}
use guardian_llmprovider_gat.Queue.{
  InferenceQueue, SubmitError, prune_history, finish_tracked, cancel_tracked, enqueue, finish,
  cancel, submit, admit, submitted, expire_queued_request, new_queue,
}
use guardian_llmprovider_gat.Queue.Turn.{
  Event, submits, waits, notices, drops, reads, cancels, finishes, apply, run, wait_for_turn,
  wait_entry, may_run, start, cancel_noticed, wait_cancelled,
}
use guardian_llmprovider_gat.Queue.Invariant.{Inv, prune-Inv}
use guardian_llmprovider_gat.Queue.Changes.{
  finish_tracked-Inv, cancel_tracked-Inv, enqueue-Inv, start-Inv,
}

-- The entry that `admit` lets in is new, queued and within the depth.
pub admit-ok :
    (now : ℕ) (uuid : String) (client owner : Option String) (model : String) (id : Option String)
    (q : InferenceQueue) (e : QueueEntry)
    → admit now uuid client owner model id q ≡ ok e
    → (e.enqueued_at ≡ now)
      × (is_queued e.status ≡ true)
      × (lookup e.request_id q.entries ≡ none)
      × ((d : ℕ) → q.max_queue_depth ≡ some d → length q.waiting < d)
unfolding admit
admit-ok now uuid client owner model id q e h =
    (ground arith, ground arith, ground arith, λ d x. ground arith)

-- A property of the time and the queue that the five changes of the queue keep.
pub record Closed (P : ℕ → InferenceQueue → Type 0) : Type 0 where
  pub on_prune : (now : ℕ) (q : InferenceQueue) → P now q → P now (prune_history now q)
  pub on_finish :
      (now : ℕ) (id : String) (o : Outcome) (detail : Option String) (e : QueueEntry)
      (q : InferenceQueue)
      → P now q
      → lookup id q.entries ≡ some e
      → (is_some e.completed_at && is_final e.status) ≡ false
      → P now (finish_tracked now id o detail e q)
  pub on_cancel :
      (now : ℕ) (id reason : String) (detail : Option String) (e : QueueEntry) (q : InferenceQueue)
      → P now q
      → lookup id q.entries ≡ some e
      → P now (cancel_tracked now id reason detail e q)
  pub on_enqueue :
      (now : ℕ) (e : QueueEntry) (q : InferenceQueue)
      → P now q
      → e.enqueued_at ≡ now
      → is_queued e.status ≡ true
      → lookup e.request_id q.entries ≡ none
      → ((d : ℕ) → q.max_queue_depth ≡ some d → length q.waiting < d)
      → P now (enqueue e q)
  pub on_start :
      (now : ℕ) (id : String) (e : QueueEntry) (q : InferenceQueue)
      → P now q
      → lookup id q.entries ≡ some e
      → may_run id e q ≡ true
      → P now (start now id e q)

module _ {P : ℕ → InferenceQueue → Type 0} (c : Closed P) where
  submit-Closed :
      (now : ℕ) (uuid : String) (client owner : Option String) (model : String) (id : Option String)
      (q : InferenceQueue)
      → P now q
      → P now (submit now uuid client owner model id q).1
  unfolding submit
  submit-Closed now uuid client owner model id q v =
      go (admit now uuid client owner model id (prune_history now q)) refl
    where
      q' : InferenceQueue
      q' = prune_history now q

      go :
          (r : Result SubmitError QueueEntry)
          → admit now uuid client owner model id q' ≡ r
          → P now (submitted q' r).1
      go (err x) p = c.on_prune now q v
      go (ok e) p =
          let (at, new, fresh, room) = admit-ok now uuid client owner model id q' e p in
          c.on_enqueue now e q' (c.on_prune now q v) at new fresh room

  finish-Closed :
      (now : ℕ) (id : String) (o : Outcome) (detail : Option String) (q : InferenceQueue)
      → P now q
      → P now (finish now id o detail q).1
  unfolding finish
  finish-Closed now id o detail q v =
      elim (Option-cases (lookup id (prune_history now q).entries)) [
        | inl p ↦ rw (p, finish) (c.on_prune now q v)
        | inr (e, p) ↦
            rw (p, finish)
              (elim (Bool-cases (is_some e.completed_at && is_final e.status)) [
                | inl f ↦ rw f (c.on_prune now q v)
                | inr f ↦ rw f (c.on_finish now id o detail e _ (c.on_prune now q v) p f)
              ])
      ]

  cancel-Closed :
      (now : ℕ) (id : String) (client owner : Option String) (reason : String)
      (detail : Option String) (q : InferenceQueue)
      → P now q
      → P now (cancel now id client owner reason detail q).1
  unfolding cancel
  cancel-Closed now id client owner reason detail q v =
      elim (Option-cases (lookup id (prune_history now q).entries)) [
        | inl p ↦ rw (p, cancel) (c.on_prune now q v)
        | inr (e, p) ↦
            rw (p, cancel)
              (elim (Bool-cases (is_visible client owner e)) [
                | inl f ↦ rw f (c.on_cancel now id reason detail e _ (c.on_prune now q v) p)
                | inr f ↦ rw f (c.on_prune now q v)
              ])
      ]

  expire-Closed :
      (now : ℕ) (id : String) (q : InferenceQueue)
      → P now q
      → P now (expire_queued_request now id q).1
  unfolding expire_queued_request
  expire-Closed now id q v = elim (Option-cases (lookup id (prune_history now q).entries)) [
    | inl p ↦ rw (p, expire_queued_request) (c.on_prune now q v)
    | inr (e, p) ↦
        rw (p, expire_queued_request)
          (elim (Bool-cases (is_queued e.status)) [
            | inl f ↦ rw f (finish-Closed now id Outcome.timeout none _ (c.on_prune now q v))
            | inr f ↦ rw f (c.on_prune now q v)
          ])
  ]

  wait_entry-Closed :
      (now : ℕ) (id : String) (e : QueueEntry) (q : InferenceQueue)
      → P now q
      → lookup id q.entries ≡ some e
      → P now (wait_entry now id e q).1
  unfolding wait_entry
  wait_entry-Closed now id e q v p = ground (
    arith,
    expire-Closed now id q v,
    cancel-Closed now id none none (or_text e.cancel_reason "cancelled") none q v,
    c.on_start now id e q v p,
  )

  wait-Closed :
      (now : ℕ) (id : String) (q : InferenceQueue) → P now q → P now (wait_for_turn now id q).1
  unfolding wait_for_turn
  wait-Closed now id q v = elim (Option-cases (lookup id (prune_history now q).entries)) [
    | inl p ↦ rw (p, wait_for_turn) (c.on_prune now q v)
    | inr (e, p) ↦ rw (p, wait_for_turn) (wait_entry-Closed now id e _ (c.on_prune now q v) p)
  ]

  notice-Closed :
      (now : ℕ) (id : String) (q : InferenceQueue) → P now q → P now (cancel_noticed now id q)
  unfolding cancel_noticed
  notice-Closed now id q v = elim (Option-cases (lookup id q.entries)) [
    | inl p ↦ rw (p, cancel_noticed) v
    | inr (e, p) ↦
        rw (p, cancel_noticed)
          (elim (Bool-cases e.cancel_set) [
            | inl f ↦
                rw f (cancel-Closed now id none none (or_text e.cancel_reason "cancelled") none q v)
            | inr f ↦ rw f v
          ])
  ]

  pub apply-Closed : (e : ℕ × Event) (q : InferenceQueue) → P e.0 q → P e.0 (apply e q)
  unfolding apply wait_cancelled
  apply-Closed (now, submits uuid client owner model i) q v =
      submit-Closed now uuid client owner model i q v
  apply-Closed (now, waits i) q v = wait-Closed now i q v
  apply-Closed (now, notices i) q v = notice-Closed now i q v
  apply-Closed (now, drops i) q v = cancel-Closed now i none none "wait_cancelled" none q v
  apply-Closed (now, reads i) q v = c.on_prune now q v
  apply-Closed (now, cancels i client owner reason detail) q v =
      cancel-Closed now i client owner reason detail q v
  apply-Closed (now, finishes i outcome detail) q v = finish-Closed now i outcome detail q v

-- A run that the clock never goes back in, from a time to a time.
abbrev pub Timely : ℕ → List (ℕ × Event) → ℕ → Type 0
Timely from [] to = from ≤ to
Timely from ((now, e) ∷ es) to = (from ≤ now) × Timely now es to

pub run-Closed :
    {P : InferenceQueue → Type 0} (c : Closed (λ _. P)) (es : List (ℕ × Event)) (q : InferenceQueue)
    → P q
    → P (run es q)
unfolding run
run-Closed c [] q v = v
run-Closed c (e ∷ es) q v = run-Closed c es (apply e q) (apply-Closed c e q v)

pub run_timely :
    {P : ℕ → InferenceQueue → Type 0} (c : Closed P)
    → ((s t : ℕ) (q : InferenceQueue) → s ≤ t → P s q → P t q)
    → (from : ℕ) (es : List (ℕ × Event)) (to : ℕ) (q : InferenceQueue) → Timely from es to
    → P from q
    → P to (run es q)
unfolding run
run_timely c later from [] to q h v = later from to q h v
run_timely c later from ((now, e) ∷ es) to q h v =
    run_timely c later now es to (apply (now, e) q) h.1
      (apply-Closed c (now, e) q (later from now q h.0 v))

pub Inv-Closed : Closed (λ _. Inv)
Inv-Closed = record {
  on_prune = λ now q v. prune-Inv now v;
  on_finish = λ now id o detail e q v p f.
      finish_tracked-Inv now id o detail e q v p (ground (arith, v.ended id e p));
  on_cancel = λ now id reason detail e q v p. cancel_tracked-Inv now id reason detail e q v p;
  on_enqueue = λ now e q v at new fresh room. enqueue-Inv e q v new fresh room;
  on_start = λ now id e q v p h. start-Inv now id e q v p h;
}

pub new_queue-Inv :
    (max_concurrent : ℕ) (depth : Option ℕ) (timeout ttl : ℕ)
    → Inv (new_queue max_concurrent depth timeout ttl)
unfolding lookup
new_queue-Inv max_concurrent depth timeout ttl = record {
  waiting_exact = λ k. refl;
  active_exact = λ k. refl;
  slots = omega arith;
  depth = λ d h. omega arith;
  owners = λ i j a b p r x y o. cc;
  ended = λ k e p f n. cc;
  conserved = refl;
  timed_out = omega arith;
}

-- Every run of the event loop from a new queue, whatever the calls, their order and their times,
-- ends in a well-formed queue: the waiting list and the slots hold exactly the queued and the
-- running requests, each once; no more than `max_concurrent` run and no more than the depth wait;
-- no owner has two running requests; and each request ever queued is counted exactly once among
-- the completed, cancelled, failed, expired, waiting and running ones.
pub run-Inv :
    (max_concurrent : ℕ) (depth : Option ℕ) (timeout ttl : ℕ) (es : List (ℕ × Event))
    → Inv (run es (new_queue max_concurrent depth timeout ttl))
run-Inv max_concurrent depth timeout ttl es =
    run-Closed Inv-Closed es _ (new_queue-Inv max_concurrent depth timeout ttl)
