-- ===== src/BackendDeath/Observer.antt =====
-- app/gateway/backend_death.py: the observer that reads the death signal, and app/gateway/
-- caretaker_client.py: what it is given to read.
use guardian_llmprovider_gat.Prelude.{
  ℕ, ◌-◌, String, Bool, true, false, ◌||◌, Option, none, some, List, [], ◌∷◌, ◌++◌, leb, ◌==◌,
  if◌then◌else◌, any,
}
use guardian_llmprovider_gat.Value.{Value, mapping, Fields}
use guardian_llmprovider_gat.BackendDeath.{
  Library, parsed_timestamp, optional_bool, Report, Fingerprint, same_fingerprint, fingerprint,
  summary, Signal, parse_death_signal, CrashRecord, reported_death, ModelManager, trimmed,
  record_crash,
}

pub record CaretakerObservation : Type 0 where
  pub configured : Bool
  pub reachable : Bool
  pub death_signal : Signal
  pub backend_alive : Option Bool
  pub is_unloaded : Option Bool
  pub status_read_at : Option String
  pub death : Option Report

abbrev pub no_observation : CaretakerObservation
no_observation = record {
  configured = false;
  reachable = false;
  death_signal = Signal.not_configured;
  backend_alive = none;
  is_unloaded = none;
  status_read_at = none;
  death = none;
}

pub data BackendState : Type 0 where
  alive dead unloaded unknown : BackendState

abbrev pub is_reported : Signal → Bool
is_reported Signal.reported = true
is_reported _ = false

-- `daemon_alive is False`
abbrev pub is_false : Option Bool → Bool
is_false (some false) = true
is_false _ = false

abbrev pub is_true : Option Bool → Bool
is_true (some true) = true
is_true _ = false

unfoldable pub derive_backend_state :
    (probe_healthy stopped : Bool) (daemon_alive : Option Bool) (death_signal : Signal)
    → BackendState
derive_backend_state probe_healthy stopped daemon_alive death_signal =
    if stopped
    then unloaded
    else if is_false daemon_alive
    then dead
    else if probe_healthy
    then alive
    else if is_reported death_signal
    then dead
    else unknown

pub record StatusFields : Type 0 where
  pub backend_state : BackendState
  pub backend_death : Option Report
  pub caretaker : CaretakerObservation

-- The fields of `/api/status`; those of `caretaker` are the observation's.
unfoldable pub status_fields :
    CaretakerObservation → (probe_healthy gateway_unloaded : Bool) → Option Report → StatusFields
unfolding derive_backend_state
status_fields o probe_healthy gateway_unloaded last_report = record {
  backend_state =
      derive_backend_state probe_healthy (gateway_unloaded || is_true o.is_unloaded) o.backend_alive
        o.death_signal;
  backend_death = last_report;
  caretaker = o;
}

-- The daemon's answer: none, one with another status code than 200, or a body, read as JSON or not.
pub data Reply : Type 0 where
  transport_error : Reply
  response : (status_code : ℕ) → (json : Option Value) → Reply

-- The client's `status`: a dict, or a CaretakerError.
unfoldable pub client_status : Reply → Option Fields
client_status transport_error = none
client_status (response code (some (mapping status))) = if code == 200 then some status else none
client_status (response code _) = none

-- Times are in milliseconds of the monotonic clock. The manager, which others write to as well, is
-- part of the state; `none` where there is none.
pub record BackendDeathObserver : Type 0 where
  pub cache_ms : ℕ
  pub last : Option CaretakerObservation
  pub last_at : ℕ
  pub last_success_read_at : Option String
  pub seen : List Fingerprint
  pub last_report : Option Report
  pub manager : Option ModelManager

abbrev pub seen_fingerprints_limit : ℕ
seen_fingerprints_limit = 64

unfoldable pub cached : ℕ → BackendDeathObserver → Option CaretakerObservation
cached now o =
    if o.cache_ms == 0 then none else if leb o.cache_ms (now - o.last_at) then none else o.last

unfoldable pub unavailable : BackendDeathObserver → CaretakerObservation
unavailable o = record no_observation {
  configured = true;
  death_signal = Signal.unavailable;
  status_read_at = o.last_success_read_at;
}

abbrev pub newer_report :
    (current incoming : Option ℕ) → (current_report incoming_report : Report) → Report
newer_report current none c r = c
newer_report none (some i) c r = r
newer_report (some a) (some i) c r = if leb a i then r else c

unfoldable pub newest_report : Library → Option Report → Report → Report
unfolding parsed_timestamp
newest_report py none incoming = incoming
newest_report py (some current) incoming =
    newer_report (parsed_timestamp py current.timestamp) (parsed_timestamp py incoming.timestamp)
      current incoming

unfoldable pub crash_of : Library → Report → CrashRecord
unfolding summary
crash_of py r = record {
  timestamp = r.timestamp;
  model = r.model;
  error_message = summary py r;
  exit_code = r.exit_code;
  origin = reported_death;
  cause = some r.cause;
}

abbrev pub recorded_by : CrashRecord → Option ModelManager → Option ModelManager
recorded_by crash none = none
recorded_by crash (some m) = some (record_crash crash m)

unfoldable pub is_seen : Fingerprint → List Fingerprint → Bool
unfolding same_fingerprint
is_seen f seen = any (λ g. same_fingerprint g f) seen

unfoldable pub record_death : Library → Report → BackendDeathObserver → BackendDeathObserver
unfolding newest_report fingerprint is_seen crash_of record_crash
record_death py r o =
    let o' = record o { last_report = some (newest_report py o.last_report r) } in
    if is_seen (fingerprint py r) o.seen then o' else record o' {
      seen = trimmed seen_fingerprints_limit (o.seen ++ fingerprint py r ∷ []);
      manager = recorded_by (crash_of py r) o.manager;
    }

abbrev pub record_if : Library → Option Report → BackendDeathObserver → BackendDeathObserver
record_if py none o = o
record_if py (some r) o = record_death py r o

abbrev pub observed :
    Library
    → (read_at : String) → Fields
    → Signal × Option Report
    → BackendDeathObserver
    → CaretakerObservation × BackendDeathObserver
observed py read_at status parsed o = (
  record {
    configured = true;
    reachable = true;
    death_signal = parsed.0;
    backend_alive = optional_bool "backend_alive" status;
    is_unloaded = optional_bool "is_unloaded" status;
    status_read_at = some read_at;
    death = parsed.1;
  },
  record (record_if py parsed.1 o) { last_success_read_at = some read_at },
)

abbrev pub read_status :
    Library
    → (observed_at read_at : String) → Option Fields
    → BackendDeathObserver
    → CaretakerObservation × BackendDeathObserver
read_status py observed_at read_at none o = (unavailable o, o)
read_status py observed_at read_at (some status) o =
    observed py read_at status (parse_death_signal py observed_at (mapping status)) o

-- The daemon is read. `observed_at` and `read_at` are readings of the wall clock, as texts.
unfoldable pub read :
    Library
    → (observed_at read_at : String) → Reply
    → BackendDeathObserver
    → CaretakerObservation × BackendDeathObserver
unfolding unavailable parse_death_signal optional_bool record_death client_status
read py observed_at read_at reply o = read_status py observed_at read_at (client_status reply) o

-- What happens under the lock at `now`: a read, which ends at `finished`, unless another has just
-- been made.
unfoldable pub refresh :
    Library
    → (now finished : ℕ) (observed_at read_at : String) → Reply
    → BackendDeathObserver
    → CaretakerObservation × BackendDeathObserver
unfolding cached read
refresh py now finished observed_at read_at reply o = elim (cached now o) [
  | some c ↦ (c, o)
  | none ↦
      let (c, o') = read py observed_at read_at reply o in
      (c, record o' { last = some c; last_at = finished })
]

-- `asked` is when the call looks at the cache, `locked` when it has the lock.
unfoldable pub observe :
    Library
    → (has_client : Bool) (asked locked finished : ℕ) (observed_at read_at : String) → Reply
    → BackendDeathObserver
    → CaretakerObservation × BackendDeathObserver
unfolding refresh cached
observe py has_client asked locked finished observed_at read_at reply o =
    if has_client
    then elim (cached asked o) [
      | some c ↦ (c, o)
      | none ↦ refresh py locked finished observed_at read_at reply o
    ]
    else (no_observation, o)
