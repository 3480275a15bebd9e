-- ===== src/Queue.antt =====
-- app/proxy/queue.py: the inference queue. A method returns its result and the queue after it; each
-- reads the clock once, as its first argument. `changes` counts the change events that were set: a
-- waiter that sleeps since count `n` is awake once `changes` has passed `n`.
pub mod Turn
mod Invariant
mod Changes
pub mod Runs
pub mod Order
pub mod Progress
pub mod Payloads
mod Privacy
mod Lifecycle
mod Submission
mod Tests
use guardian_llmprovider_gat.Prelude.{
  ℕ, ◌+◌, ◌-◌, suc, String, Bool, true, false, not, ◌&&◌, ◌||◌, Option, none, some, List, [], ◌∷◌,
  ◌++◌, ltb, leb, ◌==◌, str_eq, or_text, if◌then◌else◌, length, contains, remove, is_some, Result,
  ok, err, ◌>>=◌, ◌>>◌, guard, or_raise,
}
use guardian_llmprovider_gat.Dict.{Dict, lookup, insert, retain}
use guardian_llmprovider_gat.QueueEntry.{
  Status, QueueEntry, Outcome, status_name, is_final, is_active, is_queued, normalize_client_id,
  normalize_owner_id, is_visible, cancel_entry, finish_entry,
}

pub record Totals : Type 0 where
  pub queued : ℕ
  pub completed : ℕ
  pub timeouts : ℕ
  pub cancelled : ℕ
  pub failed : ℕ
  pub expired : ℕ

-- `queue_timeout` is normalised: `0` means that no wait budget is enforced. `history_ttl` is `0`
-- where the configured value is not positive.
pub record InferenceQueue : Type 0 where
  pub max_concurrent : ℕ
  pub max_queue_depth : Option ℕ
  pub queue_timeout : ℕ
  pub history_ttl : ℕ
  pub waiting : List String
  pub active : List String
  pub entries : Dict QueueEntry
  pub totals : Totals
  pub changes : ℕ

abbrev pub new_queue : ℕ → Option ℕ → ℕ → ℕ → InferenceQueue
new_queue max_concurrent max_queue_depth queue_timeout history_ttl = record {
  max_concurrent = max_concurrent;
  max_queue_depth = max_queue_depth;
  queue_timeout = queue_timeout;
  history_ttl = history_ttl;
  waiting = [];
  active = [];
  entries = [];
  totals = record {
    queued = 0;
    completed = 0;
    timeouts = 0;
    cancelled = 0;
    failed = 0;
    expired = 0;
  };
  changes = 0;
}

pub signal_change : InferenceQueue → InferenceQueue
signal_change q = record q { changes = suc q.changes }

is_recent : ℕ → ℕ → QueueEntry → Bool
is_recent now ttl e = elim e.completed_at [ none ↦ true | some done ↦ leb now (done + ttl) ]

is_kept : ℕ → InferenceQueue → String → QueueEntry → Bool
is_kept now q request_id e =
    contains request_id q.waiting || contains request_id q.active || is_recent now q.history_ttl e

pub prune_history : ℕ → InferenceQueue → InferenceQueue
unfolding is_kept is_recent
prune_history now q =
    if q.history_ttl == 0 then q else record q { entries = retain (is_kept now q) q.entries }

pub owner_has_active_request : String → List String → Dict QueueEntry → Bool
owner_has_active_request owner [] entries = false
owner_has_active_request owner (i ∷ active) entries =
    elim (lookup i entries) [
      | none ↦ false
      | some e ↦ str_eq e.owner_id owner && is_active e.status
    ]
    || owner_has_active_request owner active entries

pub data SubmitError : Type 0 where
  client_required owner_required : SubmitError
  depth_exceeded : Option ℕ → ℕ → ℕ → String → SubmitError
  id_in_use : String → SubmitError

-- The checks of `submit`, in its order, and the entry that it registers.
pub admit :
    ℕ
    → String
    → Option String
    → Option String
    → String
    → Option String
    → InferenceQueue
    → Result SubmitError QueueEntry
admit now uuid client_id owner_id model request_id q = do
  let depth = length q.waiting
  client ← or_raise (normalize_client_id client_id) client_required
  owner ← or_raise (normalize_owner_id owner_id (some client)) owner_required
  limit ←
      or_raise q.max_queue_depth
        (depth_exceeded none depth q.max_concurrent "admission_misconfigured")
  guard (ltb depth limit) (depth_exceeded (some limit) depth q.max_concurrent "queue_full")
  let id = or_text request_id uuid
  guard (not (is_some (lookup id q.entries))) (id_in_use id)
  ok (record {
    request_id = id;
    client_id = client;
    owner_id = owner;
    model = model;
    enqueued_at = now;
    status = Status.queued;
    started_at = none;
    completed_at = none;
    cancel_requested_at = none;
    cancel_reason = none;
    detail = none;
    cancel_set = false;
  })

pub enqueue : QueueEntry → InferenceQueue → InferenceQueue
unfolding signal_change
enqueue e q = signal_change (record q {
  entries = insert e.request_id e q.entries;
  waiting = q.waiting ++ e.request_id ∷ [];
  totals = record q.totals { queued = suc q.totals.queued };
})

pub submitted :
    InferenceQueue → Result SubmitError QueueEntry → Result SubmitError String × InferenceQueue
unfolding enqueue
submitted q (ok e) = (ok e.request_id, enqueue e q)
submitted q (err x) = (err x, q)

-- `uuid` is what `uuid.uuid4()` returns.
pub submit :
    ℕ
    → String
    → Option String
    → Option String
    → String
    → Option String
    → InferenceQueue
    → Result SubmitError String × InferenceQueue
unfolding submitted admit
submit now uuid client_id owner_id model request_id q =
    let q' = prune_history now q in
    submitted q' (admit now uuid client_id owner_id model request_id q')

count_cancelled : QueueEntry → Totals → Totals
count_cancelled e t = if is_queued e.status then record t { cancelled = suc t.cancelled } else t

-- `cancel` past its guards. Only a queued request stands in `waiting`.
pub cancel_tracked :
    ℕ → String → String → Option String → QueueEntry → InferenceQueue → InferenceQueue
unfolding signal_change count_cancelled
cancel_tracked now request_id reason detail e q = signal_change (record q {
  waiting = if is_queued e.status then remove request_id q.waiting else q.waiting;
  entries = insert request_id (cancel_entry now reason detail e) q.entries;
  totals = count_cancelled e q.totals;
})

-- The `Bool` says whether the caller is shown the request; its status is `get_request_status`.
pub cancel :
    ℕ
    → String
    → Option String
    → Option String
    → String
    → Option String
    → InferenceQueue
    → Bool × InferenceQueue
unfolding cancel_tracked
cancel now request_id client_id owner_id reason detail q =
    let q' = prune_history now q in
    elim (lookup request_id q'.entries) [
      | none ↦ (false, q')
      | some e ↦
          if is_visible client_id owner_id e
          then (true, cancel_tracked now request_id reason detail e q')
          else (false, q')
    ]

count_outcome : Outcome → Totals → Totals
count_outcome Outcome.completed t = record t { completed = suc t.completed }
count_outcome Outcome.cancelled t = record t { cancelled = suc t.cancelled }
count_outcome Outcome.failed t = record t { failed = suc t.failed }
count_outcome Outcome.expired t = record t { expired = suc t.expired }
count_outcome Outcome.timeout t = record t { timeouts = suc t.timeouts; expired = suc t.expired }

pub finish_tracked :
    ℕ → String → Outcome → Option String → QueueEntry → InferenceQueue → InferenceQueue
unfolding signal_change count_outcome
finish_tracked now request_id outcome detail e q = signal_change (record q {
  waiting = remove request_id q.waiting;
  active = remove request_id q.active;
  entries = insert request_id (finish_entry now outcome detail e) q.entries;
  totals = count_outcome outcome q.totals;
})

-- The number is the life time of the request, `0` where nothing is finalised.
pub finish : ℕ → String → Outcome → Option String → InferenceQueue → ℕ × InferenceQueue
unfolding finish_tracked
finish now request_id outcome detail q =
    let q' = prune_history now q in
    elim (lookup request_id q'.entries) [
      | none ↦ (0, q')
      | some e ↦
          if is_some e.completed_at && is_final e.status
          then (0, q')
          else (now - e.enqueued_at, finish_tracked now request_id outcome detail e q')
    ]

pub release : ℕ → String → InferenceQueue → ℕ × InferenceQueue
release now request_id q = finish now request_id Outcome.completed none q

pub queue_timeout_enforced : InferenceQueue → Bool
queue_timeout_enforced q = ltb 0 q.queue_timeout

pub queue_wait_remaining : ℕ → QueueEntry → InferenceQueue → Option ℕ
unfolding queue_timeout_enforced
queue_wait_remaining now e q =
    if queue_timeout_enforced q then some (e.enqueued_at + q.queue_timeout - now) else none

pub expire_queued_request : ℕ → String → InferenceQueue → String × InferenceQueue
unfolding finish
expire_queued_request now request_id q =
    let q' = prune_history now q in
    elim (lookup request_id q'.entries) [
      | none ↦ ("unknown_request", q')
      | some e ↦
          if is_queued e.status
          then (
            or_text e.cancel_reason "queue_timeout",
            (finish now request_id Outcome.timeout none q').1,
          )
          else (or_text e.cancel_reason (status_name e.status), q')
    ]
