-- ===== src/Queue/Turn.antt =====
-- app/proxy/queue.py: `wait_for_turn`, one round of its loop at a time, and the runs of the queue.
-- A round runs with no `await` that suspends (the lock is never held across one), so a run of the
-- event loop is a sequence of whole rounds and calls.
use guardian_llmprovider_gat.Prelude.{
  ℕ, String, Bool, false, not, ◌&&◌, Option, none, some, List, [], ◌∷◌, ◌++◌, ltb, ◌==◌, str_eq,
  or_text, if◌then◌else◌, length, Result, ok, err,
}
use guardian_llmprovider_gat.Dict.{lookup, insert}
use guardian_llmprovider_gat.QueueEntry.{
  QueueEntry, Outcome, status_name, is_final, is_queued, start_entry,
}
use guardian_llmprovider_gat.Queue.{
  InferenceQueue, SubmitError, signal_change, prune_history, owner_has_active_request, submit,
  cancel, finish, queue_wait_remaining, expire_queued_request,
}

-- `sleeps` is the wait for a change event or the entry's cancel event, at most so long.
pub data Turn : Type 0 where
  granted : Turn
  raised : String → Turn
  sleeps : Option ℕ → Turn

unfoldable pub heads : String → List String → Bool
heads request_id [] = false
heads request_id (i ∷ waiting) = str_eq i request_id

unfoldable pub may_run : String → QueueEntry → InferenceQueue → Bool
unfolding heads
may_run request_id e q =
    is_queued e.status
    && heads request_id q.waiting
    && ltb (length q.active) q.max_concurrent
    && not (owner_has_active_request e.owner_id q.active q.entries)

unfoldable pub pop_front : List String → List String
pop_front [] = []
pop_front (i ∷ waiting) = waiting

unfoldable pub start : ℕ → String → QueueEntry → InferenceQueue → InferenceQueue
unfolding signal_change pop_front
start now request_id e q = signal_change (record q {
  waiting = pop_front q.waiting;
  active = q.active ++ request_id ∷ [];
  entries = insert request_id (start_entry now e) q.entries;
})

-- `remaining is not None and remaining <= 0`
unfoldable pub out_of_time : Option ℕ → Bool
out_of_time none = false
out_of_time (some remaining) = remaining == 0

unfoldable pub wait_entry : ℕ → String → QueueEntry → InferenceQueue → Turn × InferenceQueue
unfolding out_of_time start may_run
wait_entry now request_id e q =
    let reason = or_text e.cancel_reason "cancelled" in
    let remaining = queue_wait_remaining now e q in
    let (why, expired) = expire_queued_request now request_id q in
    if is_final e.status
    then (raised (or_text e.cancel_reason (status_name e.status)), q)
    else if e.cancel_set
    then (raised reason, (cancel now request_id none none reason none q).1)
    else if out_of_time remaining
    then (raised why, expired)
    else if may_run request_id e q
    then (granted, start now request_id e q)
    else (sleeps remaining, q)

-- One round of the loop of `wait_for_turn`.
unfoldable pub wait_for_turn : ℕ → String → InferenceQueue → Turn × InferenceQueue
unfolding wait_entry
wait_for_turn now request_id q =
    let q' = prune_history now q in
    elim (lookup request_id q'.entries) [
      | none ↦ (raised "unknown_request", q')
      | some e ↦ wait_entry now request_id e q'
    ]

-- The end of a sleep by the entry's cancel event, before the next round.
unfoldable pub cancel_noticed : ℕ → String → InferenceQueue → InferenceQueue
cancel_noticed now request_id q = elim (lookup request_id q.entries) [
  | none ↦ q
  | some e ↦
      if e.cancel_set
      then (cancel now request_id none none (or_text e.cancel_reason "cancelled") none q).1
      else q
]

-- The end of a sleep by `asyncio.CancelledError`: the client went away.
unfoldable pub wait_cancelled : ℕ → String → InferenceQueue → InferenceQueue
wait_cancelled now request_id q = (cancel now request_id none none "wait_cancelled" none q).1

unfoldable pub acquired :
    ℕ
    → Result SubmitError String × InferenceQueue
    → Result SubmitError (String × Turn) × InferenceQueue
acquired now (err x, q) = (err x, q)
acquired now (ok i, q) = let (turn, q') = wait_for_turn now i q in (ok (i, turn), q')

-- `acquire`: submit, and the first round of the wait.
unfoldable pub acquire :
    ℕ
    → String
    → Option String
    → String
    → Option String
    → InferenceQueue
    → Result SubmitError (String × Turn) × InferenceQueue
unfolding acquired
acquire now uuid client_id model owner_id q =
    acquired now (submit now uuid client_id owner_id model none q)

-- What the tasks of the event loop do to the queue.
pub data Event : Type 0 where
  submits : String → Option String → Option String → String → Option String → Event
  waits notices drops reads : String → Event
  cancels : String → Option String → Option String → String → Option String → Event
  finishes : String → Outcome → Option String → Event

unfoldable pub apply : ℕ × Event → InferenceQueue → InferenceQueue
apply (now, submits uuid client owner model i) q = (submit now uuid client owner model i q).1
apply (now, waits i) q = (wait_for_turn now i q).1
apply (now, notices i) q = cancel_noticed now i q
apply (now, drops i) q = wait_cancelled now i q
apply (now, reads i) q = prune_history now q
apply (now, cancels i client owner reason detail) q = (cancel now i client owner reason detail q).1
apply (now, finishes i outcome detail) q = (finish now i outcome detail q).1

unfoldable pub run : List (ℕ × Event) → InferenceQueue → InferenceQueue
run [] q = q
run (e ∷ es) q = run es (apply e q)
