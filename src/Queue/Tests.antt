-- ===== src/Queue/Tests.antt =====
-- The theorems about the queue at concrete inputs, and runs that can be followed in the source.
use guardian_llmprovider_gat.Prelude.{
  ℕ, ◌≡◌, ◌↔◌, ◌≤◌, refl, none, some, List, [], ◌∷◌, arith, strip, lowers_to, inr, remove, eq_iff,
  ok, err, ◌⊎◌, false, contains, ◌++◌, ◌+◌, ◌<◌,
}
use guardian_llmprovider_gat.Dict.{lookup, insert}
use guardian_llmprovider_gat.QueueEntry.{
  QueueEntry, Status, Outcome, normalize_client_id, normalize_owner_id, is_visible, cancel_entry,
  finish_entry, start_entry,
}
use guardian_llmprovider_gat.Queue.{
  InferenceQueue, SubmitError, depth_exceeded, client_required, new_queue, submit, cancel, finish,
  prune_history, owner_has_active_request, queue_wait_remaining, expire_queued_request,
}
use guardian_llmprovider_gat.Queue.Turn.{
  Event, submits, waits, finishes, granted, raised, run, apply, wait_for_turn, wait_entry,
}
use guardian_llmprovider_gat.Queue.Invariant.{Inv}
use guardian_llmprovider_gat.Queue.Runs.{run-Inv}
use guardian_llmprovider_gat.Queue.Order.{grant_is_fifo, arrival}
use guardian_llmprovider_gat.Queue.Progress.{
  wait_entry-granted, Ready, wait_for_turn-expired, no_lost_wakeup,
}
use guardian_llmprovider_gat.Queue.Payloads.{cancel_status}
use guardian_llmprovider_gat.Queue.Privacy.{cancel_foreign}
use guardian_llmprovider_gat.Queue.Lifecycle.{apply-Follows, Follows}
use guardian_llmprovider_gat.Queue.Submission.{submit_outcome, Admissible}

-- One slot, two places, a wait budget of 1000 ms, no pruning.
abbrev empty_queue : InferenceQueue
empty_queue = new_queue 1 (some 2) 1000 0

-- Alice asks, then Bob; Alice's request starts.
abbrev morning : List (ℕ × Event)
morning =
    (10, submits "a1" (some " alice ") none "m" none)
    ∷ (20, submits "b1" (some "bob") none "m" none)
    ∷ (30, waits "a1")
    ∷ []

abbrev evening : List (ℕ × Event)
evening = (40, finishes "a1" Outcome.completed none) ∷ []

-- The names that a run of the model computes with.
busy : InferenceQueue
unfolding run apply submit wait_for_turn strip lowers_to normalize_client_id normalize_owner_id
    lookup insert prune_history expire_queued_request start_entry queue_wait_remaining
    owner_has_active_request cancel finish finish_entry cancel_entry is_visible remove
busy = run morning empty_queue

-- Both wait, and the slot is free.
lined_up : InferenceQueue
unfolding busy
lined_up =
    run
      ((10, submits "a1" (some " alice ") none "m" none)
        ∷ (20, submits "b1" (some "bob") none "m" none)
        ∷ [])
      empty_queue

abbrev bobs : QueueEntry
bobs = record {
  request_id = "b1";
  client_id = "bob";
  owner_id = "bob";
  model = "m";
  enqueued_at = 20;
  status = Status.queued;
  started_at = none;
  completed_at = none;
  cancel_requested_at = none;
  cancel_reason = none;
  detail = none;
  cancel_set = false;
}

busy_lists : (busy.waiting ≡ "b1" ∷ []) × (busy.active ≡ "a1" ∷ []) × (busy.changes ≡ 3)
unfolding busy
busy_lists = (refl, refl, refl)

-- A third request finds two waiting.
full_refuses :
    (submit 25 "c1" (some "carol") none "m" none lined_up).0
    ≡ err (depth_exceeded (some 2) 2 1 "queue_full")
unfolding lined_up
full_refuses = refl

unauthenticated_refused :
    (submit 5 "u" (some " Unauthenticated ") none "m" none empty_queue).0 ≡ err client_required
unfolding busy
unauthenticated_refused = refl

run-Inv_example : Inv (run morning empty_queue)
run-Inv_example = run-Inv 1 (some 2) 1000 0 morning

busy-Inv : Inv busy
unfolding busy
busy-Inv = run-Inv 1 (some 2) 1000 0 morning

lined_up-Inv : Inv lined_up
unfolding lined_up
lined_up-Inv = run-Inv 1 (some 2) 1000 0 (
    (10, submits "a1" (some " alice ") none "m" none)
    ∷ (20, submits "b1" (some "bob") none "m" none)
    ∷ [])

grant_is_fifo_example : arrival lined_up "a1" ≤ arrival lined_up "b1"
unfolding lined_up
grant_is_fifo_example =
    grant_is_fifo 1 (some 2) 1000 0 0 30
      ((10, submits "a1" (some " alice ") none "m" none)
        ∷ (20, submits "b1" (some "bob") none "m" none)
        ∷ [])
      "a1" "b1" (omega arith) refl refl

wait_entry-granted_example : ((wait_entry 30 "b1" bobs busy).0 ≡ granted) ↔ Ready 30 "b1" bobs busy
wait_entry-granted_example = wait_entry-granted 30 "b1" bobs busy busy-Inv

wait_for_turn-expired_example :
    let (turn, q) = wait_for_turn 1020 "b1" busy in
    (turn ≡ raised "queue_timeout")
    × (contains "b1" q.waiting ≡ false)
    × (lookup "b1" q.entries ≡ some (finish_entry 1020 Outcome.timeout none bobs))
    × (q.totals.timeouts ≡ busy.totals.timeouts + 1)
wait_for_turn-expired_example =
    wait_for_turn-expired 1020 "b1" bobs busy busy-Inv busy_b1 refl refl busy_budget busy_late
  where
    busy_b1 : lookup "b1" busy.entries ≡ some bobs
    busy_b1 = unfold busy in refl

    busy_budget : 0 < busy.queue_timeout
    busy_budget = unfold busy in omega arith

    busy_late : 20 + busy.queue_timeout ≤ 1020
    busy_late = unfold busy in omega arith

no_lost_wakeup_example :
    busy.changes < (apply (40, finishes "a1" Outcome.completed none) busy).changes
unfolding busy
no_lost_wakeup_example =
    no_lost_wakeup (40, finishes "a1" Outcome.completed none) busy (inr (λ e. cc))

apply-Follows_example : Follows busy (apply (40, finishes "a1" Outcome.completed none) busy)
unfolding busy
apply-Follows_example = apply-Follows (40, finishes "a1" Outcome.completed none) busy busy-Inv refl

-- Alice's request at its end.
abbrev alices : QueueEntry
alices = record {
  request_id = "a1";
  client_id = "alice";
  owner_id = "alice";
  model = "m";
  enqueued_at = 10;
  status = Status.completed;
  started_at = some 30;
  completed_at = some 40;
  cancel_requested_at = none;
  cancel_reason = none;
  detail = none;
  cancel_set = false;
}

finished : InferenceQueue
unfolding busy
finished = run evening busy

submit_outcome_example :
    ((x : SubmitError) × ((submit 25 "c1" (some "carol") none "m" none busy).0 ≡ err x)
      × ((submit 25 "c1" (some "carol") none "m" none busy).1 ≡ prune_history 25 busy))
    ⊎ (((submit 25 "c1" (some "carol") none "m" none busy).0 ≡ ok "c1")
        × ((submit 25 "c1" (some "carol") none "m" none busy).1.waiting
            ≡ (prune_history 25 busy).waiting ++ "c1" ∷ [])
        × Admissible (some "carol") "c1" (prune_history 25 busy))
submit_outcome_example = submit_outcome 25 "c1" (some "carol") none "m" none busy

cancel_foreign_example :
    cancel_status 50 "a1" (some "bob") (some "bob") "cancelled" none busy
    ≡ (none, prune_history 50 busy)
unfolding busy
cancel_foreign_example =
    cancel_foreign 50 "a1" "bob" "cancelled" (some "bob") (some "bob") none busy refl
      (λ e h x. ground (arith, h, x, eq_iff "alice" "bob"))
