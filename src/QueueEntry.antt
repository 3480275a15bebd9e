-- ===== src/QueueEntry.antt =====
-- app/proxy/queue.py: one tracked request, its lifecycle states, and who may see it.
-- Times are whole milliseconds of the wall clock; `max(a - b, 0.0)` is the subtraction of ℕ.
use guardian_llmprovider_gat.Prelude.{
  ℕ, String, Bool, true, false, Option, none, some, str_eq, strip, lowers_to, or_text, first_text,
  or_number, if◌then◌else◌,
}

pub data Status : Type 0 where
  queued running cancelling cancelled completed failed expired : Status

abbrev pub status_name : Status → String
status_name queued = "queued"
status_name running = "running"
status_name cancelling = "cancelling"
status_name cancelled = "cancelled"
status_name completed = "completed"
status_name failed = "failed"
status_name expired = "expired"

-- `status in FINAL_STATES`
abbrev pub is_final : Status → Bool
is_final queued = false
is_final running = false
is_final cancelling = false
is_final _ = true

-- `status in ACTIVE_STATES`
abbrev pub is_active : Status → Bool
is_active running = true
is_active cancelling = true
is_active _ = false

abbrev pub is_queued : Status → Bool
is_queued queued = true
is_queued _ = false

-- `cancel_set` is `cancel_event.is_set()`.
pub record QueueEntry : Type 0 where
  pub request_id : String
  pub client_id : String
  pub owner_id : String
  pub model : String
  pub enqueued_at : ℕ
  pub status : Status
  pub started_at : Option ℕ
  pub completed_at : Option ℕ
  pub cancel_requested_at : Option ℕ
  pub cancel_reason : Option String
  pub detail : Option String
  pub cancel_set : Bool

-- `none` is a value that is no `str`.
unfoldable pub normalize_client_id : Option String → Option String
normalize_client_id none = none
normalize_client_id (some raw) =
    let normalized = strip raw in
    if str_eq normalized ""
    then none
    else if lowers_to normalized "unauthenticated"
    then none
    else some normalized

unfoldable pub normalize_owner_id : Option String → Option String → Option String
normalize_owner_id none fallback = normalize_client_id fallback
normalize_owner_id (some raw) fallback =
    let normalized = strip raw in
    if str_eq normalized "" then normalize_client_id fallback else some normalized

pub seen_by : Option String → Option String → QueueEntry → Bool
seen_by (some owner) client e = str_eq e.owner_id owner
seen_by none (some client) e = str_eq e.client_id client
seen_by none none e = true

-- The two ownership guards of `cancel` and `get_request_status`.
unfoldable pub is_visible : Option String → Option String → QueueEntry → Bool
unfolding seen_by
is_visible client_id owner_id e =
    seen_by (normalize_owner_id owner_id none) (normalize_client_id client_id) e

-- `if detail: entry.detail = detail`
unfoldable pub with_detail : Option String → QueueEntry → QueueEntry
with_detail detail e = record e { detail = first_text detail e.detail }

-- What `cancel` does to the entry.
unfoldable pub cancel_entry : ℕ → String → Option String → QueueEntry → QueueEntry
unfolding with_detail
cancel_entry now reason detail e =
    let marked = record (with_detail detail e) { cancel_reason = some reason; cancel_set = true } in
    if is_queued e.status
    then record marked {
      status = cancelled;
      cancel_requested_at = some now;
      completed_at = some now;
    }
    else if is_active e.status
    then record marked { status = cancelling; cancel_requested_at = some now }
    else marked

-- The `outcome` texts of `finish`; any other text means completed.
pub data Outcome : Type 0 where
  completed cancelled failed expired timeout : Outcome

abbrev pub final_status : Outcome → Status
final_status Outcome.completed = Status.completed
final_status Outcome.cancelled = Status.cancelled
final_status Outcome.failed = Status.failed
final_status Outcome.expired = Status.expired
final_status Outcome.timeout = Status.expired

final_reason : Outcome → Option String → QueueEntry → Option String
final_reason Outcome.cancelled detail e =
    some (or_text (first_text e.cancel_reason detail) "cancelled")
final_reason Outcome.timeout detail e = some (or_text e.cancel_reason "queue_timeout")
final_reason _ detail e = e.cancel_reason

final_request_time : Outcome → ℕ → Option ℕ → Option ℕ
final_request_time Outcome.cancelled now requested = some (or_number requested now)
final_request_time _ now requested = requested

-- What `finish` does to the entry.
unfoldable pub finish_entry : ℕ → Outcome → Option String → QueueEntry → QueueEntry
unfolding with_detail final_reason final_request_time
finish_entry now outcome detail e = record (with_detail detail e) {
  completed_at = some now;
  status = final_status outcome;
  cancel_reason = final_reason outcome detail e;
  cancel_requested_at = final_request_time outcome now e.cancel_requested_at;
}

-- What the grant of a slot does to the entry.
unfoldable pub start_entry : ℕ → QueueEntry → QueueEntry
start_entry now e = record e { status = running; started_at = some now }
