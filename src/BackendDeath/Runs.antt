-- ===== src/BackendDeath/Runs.antt =====
-- app/gateway/backend_death.py and app/engine/manager.py: a run of the observer beside the other
-- writers of the crash history, with a log of what happens in it.
use guardian_llmprovider_gat.Prelude.{
  ℕ, ◌≡◌, String, Option, none, some, List, [], ◌∷◌, ◌++◌, if◌then◌else◌, arith,
}
use guardian_llmprovider_gat.Value.{mapping, Fields}
use guardian_llmprovider_gat.BackendDeath.{
  Library, Report, Fingerprint, fingerprint, parse_death_signal, CrashRecord, ModelManager,
}
use guardian_llmprovider_gat.BackendDeath.Observer.{
  Reply, client_status, BackendDeathObserver, cached, is_seen, crash_of, record_if, recorded_by,
  read, refresh,
}

-- The calls that get the lock, in their order, and the crashes that others record.
pub data Step : Type 0 where
  refreshed : (now finished : ℕ) → (observed_at read_at : String) → Reply → Step
  crashed : CrashRecord → Step

unfoldable pub step : Library → Step → BackendDeathObserver → BackendDeathObserver
step py (refreshed now finished observed_at read_at reply) o =
    (refresh py now finished observed_at read_at reply o).1
step py (crashed c) o = record o { manager = recorded_by c o.manager }

abbrev pub status_report : Library → String → Option Fields → Option Report
status_report py observed_at none = none
status_report py observed_at (some status) = (parse_death_signal py observed_at (mapping status)).1

-- The report that a step reads, if any.
unfoldable pub report_read : Library → Step → BackendDeathObserver → Option Report
report_read py (refreshed now finished observed_at read_at reply) o = elim (cached now o) [
  | some c ↦ none
  | none ↦ status_report py observed_at (client_status reply)
]
report_read py (crashed c) o = none

-- All reports that were read, those of them that were recorded, and all crashes recorded.
pub record Log : Type 0 where
  pub read : List Report
  pub recorded : List Report
  pub crashes : List CrashRecord

abbrev pub empty_log : Log
empty_log = record { read = []; recorded = []; crashes = [] }

abbrev pub note : Library → Option Report → BackendDeathObserver → Log → Log
note py none o l = l
note py (some r) o l =
    if is_seen (fingerprint py r) o.seen then record l { read = l.read ++ r ∷ [] } else record {
      read = l.read ++ r ∷ [];
      recorded = l.recorded ++ r ∷ [];
      crashes = l.crashes ++ crash_of py r ∷ [];
    }

unfoldable pub log : Library → Step → BackendDeathObserver → Log → Log
log py (refreshed now finished observed_at read_at reply) o l =
    note py (report_read py (refreshed now finished observed_at read_at reply) o) o l
log py (crashed c) o l = record l { crashes = l.crashes ++ c ∷ [] }

unfoldable pub run : Library → List Step → BackendDeathObserver × Log → BackendDeathObserver × Log
run py [] s = s
run py (e ∷ es) (o, l) = run py es (step py e o, log py e o l)

abbrev pub new_manager : ModelManager
new_manager = record { crash_history = []; last_crash = none }

abbrev pub new_observer : (cache_ms : ℕ) → BackendDeathObserver
new_observer cache_ms = record {
  cache_ms = cache_ms;
  last = none;
  last_at = 0;
  last_success_read_at = none;
  seen = [];
  last_report = none;
  manager = some new_manager;
}

-- What of the state records deaths.
abbrev pub Core : Type 0
Core = List Fingerprint × Option Report × Option ModelManager

abbrev pub core : BackendDeathObserver → Core
core o = (o.seen, o.last_report, o.manager)

-- A refresh records the report that it reads, and nothing else.
pub refresh-core :
    (py : Library) (now finished : ℕ) (observed_at read_at : String) (reply : Reply)
    (o : BackendDeathObserver)
    → core (refresh py now finished observed_at read_at reply o).1
      ≡ core (record_if py (report_read py (refreshed now finished observed_at read_at reply) o) o)
unfolding refresh read report_read
refresh-core py now finished observed_at read_at reply o = ground arith
