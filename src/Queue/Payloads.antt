-- ===== src/Queue/Payloads.antt =====
-- app/proxy/queue.py: the status payloads, `snapshot`, `get_request_status` and `get_status`, and who
-- is shown what. Seconds rounded to one decimal for display are whole milliseconds here.
use guardian_llmprovider_gat.Prelude.{
  ℕ, suc, ◌-◌, String, Bool, true, false, Option, none, some, List, [], ◌∷◌, if◌then◌else◌, length,
  contains, str_eq, or_number, leb,
}
use guardian_llmprovider_gat.Dict.{Dict, lookup}
use guardian_llmprovider_gat.QueueEntry.{
  QueueEntry, Status, is_queued, is_active, is_visible, normalize_client_id, normalize_owner_id,
}
use guardian_llmprovider_gat.Queue.{
  InferenceQueue, Totals, prune_history, queue_timeout_enforced, cancel,
}

-- The first place is `1`; a running request has place `0`, and one in neither list `-1`.
pub data Position : Type 0 where
  place : ℕ → Position
  gone : Position

unfoldable pub index_from : ℕ → String → List String → Position
index_from n k [] = gone
index_from n k (x ∷ xs) = if str_eq x k then place n else index_from (suc n) k xs

unfoldable pub position : String → InferenceQueue → Position
unfolding index_from
position id q =
    if contains id q.waiting
    then index_from 1 id q.waiting
    else if contains id q.active
    then place 0
    else gone

pub record Snapshot : Type 0 where
  pub request_id : String
  pub client_id : String
  pub model : String
  pub status : Status
  pub enqueued_at : ℕ
  pub position : Position
  pub started_at : Option ℕ
  pub queue_wait : Option ℕ
  pub waiting : Option ℕ
  pub elapsed : Option ℕ
  pub cancel_requested_at : Option ℕ
  pub completed_at : Option ℕ
  pub total : Option ℕ
  pub cancel_reason : Option String
  pub detail : Option String

-- A text that is shown only if it is not empty.
unfoldable pub shown : Option String → Option String
shown none = none
shown (some t) = if str_eq t "" then none else some t

unfoldable pub since : ℕ → Option ℕ → Option ℕ
since start none = none
since start (some t) = some (t - start)

unfoldable pub snapshot : ℕ → Position → QueueEntry → Snapshot
unfolding shown since
snapshot now where_it_is e = record {
  request_id = e.request_id;
  client_id = e.client_id;
  model = e.model;
  status = e.status;
  enqueued_at = e.enqueued_at;
  position = where_it_is;
  started_at = e.started_at;
  queue_wait = since e.enqueued_at e.started_at;
  waiting = if is_queued e.status then some (now - e.enqueued_at) else none;
  elapsed = if is_active e.status then some (now - or_number e.started_at e.enqueued_at) else none;
  cancel_requested_at = e.cancel_requested_at;
  completed_at = e.completed_at;
  total = since e.enqueued_at e.completed_at;
  cancel_reason = shown e.cancel_reason;
  detail = shown e.detail;
}

unfoldable pub get_request_status :
    ℕ → String → Option String → Option String → InferenceQueue → Option Snapshot × InferenceQueue
unfolding snapshot position
get_request_status now id client owner q =
    let q' = prune_history now q in
    elim (lookup id q'.entries) [
      | none ↦ (none, q')
      | some e ↦
          if is_visible client owner e
          then (some (snapshot now (position id q') e), q')
          else (none, q')
    ]

-- `cancel` ends in the status of the request.
unfoldable pub cancel_status :
    ℕ
    → String
    → Option String
    → Option String
    → String
    → Option String
    → InferenceQueue
    → Option Snapshot × InferenceQueue
cancel_status now id client owner reason detail q =
    let (done, q') = cancel now id client owner reason detail q in
    if done then get_request_status now id client owner q' else (none, q')

pub record QueueStatus : Type 0 where
  pub queue_length : ℕ
  pub active_count : ℕ
  pub max_concurrent : ℕ
  pub max_queue_depth : Option ℕ
  pub queue_timeout : ℕ
  pub queue_timeout_enforced : Bool
  pub stats : Totals
  pub active_requests : List Snapshot
  pub waiting : List Snapshot
  pub your_requests : Option (List Snapshot)
  pub yours : Option Snapshot

unfoldable pub listed : ℕ → (ℕ → Position) → ℕ → List String → Dict QueueEntry → List Snapshot
unfolding snapshot
listed now at n [] entries = []
listed now at n (i ∷ ids) entries =
    let rest = listed now at (suc n) ids entries in
    elim (lookup i entries) [ none ↦ rest | some e ↦ snapshot now (at n) e ∷ rest ]

-- Python's `sort(key=enqueued_at, reverse=True)`: newest first, equal keys as they were.
unfoldable pub insert_newest : Snapshot → List Snapshot → List Snapshot
insert_newest s [] = s ∷ []
insert_newest s (t ∷ ts) =
    if leb t.enqueued_at s.enqueued_at then s ∷ t ∷ ts else t ∷ insert_newest s ts

unfoldable pub newest_first : List Snapshot → List Snapshot
unfolding insert_newest
newest_first [] = []
newest_first (s ∷ ss) = insert_newest s (newest_first ss)

unfoldable pub first_with : (Status → Bool) → List Snapshot → Option Snapshot
first_with test [] = none
first_with test (s ∷ ss) = if test s.status then some s else first_with test ss

unfoldable pub or_else : Option Snapshot → Option Snapshot → Option Snapshot
or_else none t = t
or_else (some s) t = some s

-- An active request of the caller, else a queued one, else the newest.
unfoldable pub latest_match : List Snapshot → Option Snapshot
unfolding first_with or_else
latest_match ss =
    or_else (first_with is_active ss)
      (or_else (first_with is_queued ss) (first_with (λ _. true) ss))

-- `_matches_request_owner`; `none` where the caller named no one.
unfoldable pub matches : Option String → Option String → QueueEntry → Bool
matches (some owner) client e = str_eq e.owner_id owner
matches none (some client) e = str_eq e.client_id client
matches none none e = false

unfoldable pub owned : ℕ → InferenceQueue → (QueueEntry → Bool) → Dict QueueEntry → List Snapshot
unfolding snapshot position
owned now q test [] = []
owned now q test ((k, e) ∷ d) =
    let rest = owned now q test d in
    if test e then snapshot now (position e.request_id q) e ∷ rest else rest

unfoldable pub your_requests :
    ℕ → Option String → Option String → InferenceQueue → Option (List Snapshot)
unfolding owned newest_first matches
your_requests now none none q = none
your_requests now owner client q =
    some (newest_first (owned now q (matches owner client) q.entries))

unfoldable pub latest_of : Option (List Snapshot) → Option Snapshot
unfolding latest_match
latest_of none = none
latest_of (some ss) = latest_match ss

unfoldable pub get_status :
    ℕ → Option String → Option String → InferenceQueue → QueueStatus × InferenceQueue
unfolding listed your_requests latest_of
get_status now client owner q =
    let q' = prune_history now q in
    let yours = your_requests now (normalize_owner_id owner none) (normalize_client_id client) q' in
    (
      record {
        queue_length = length q'.waiting;
        active_count = length q'.active;
        max_concurrent = q'.max_concurrent;
        max_queue_depth = q'.max_queue_depth;
        queue_timeout = q'.queue_timeout;
        queue_timeout_enforced = queue_timeout_enforced q';
        stats = q'.totals;
        active_requests = listed now (λ _. place 0) 0 q'.active q'.entries;
        waiting = listed now place 1 q'.waiting q'.entries;
        your_requests = yours;
        yours = latest_of yours;
      },
      q',
    )
