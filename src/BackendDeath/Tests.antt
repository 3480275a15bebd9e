-- ===== src/BackendDeath/Tests.antt =====
-- Runs of app/gateway/backend_death.py, and its theorems at concrete ones.
use guardian_llmprovider_gat.Prelude.{
  ℕ, ◌≡◌, refl, ◌↔◌, String, true, false, Option, none, some, List, [], ◌∷◌, arith, map,
  if◌then◌else◌, str_eq,
}
use guardian_llmprovider_gat.Value.{ℤ, pos, negsuc, Value, text, mapping, end, field, get, Fields}
use guardian_llmprovider_gat.BackendDeath.{
  Stamp, zoned, Library, parse_death_signal, z_to_offset, CrashRecord, load_failure, ModelManager,
}
use guardian_llmprovider_gat.BackendDeath.Observer.{
  transport_error, response, client_status, observe, alive, status_fields,
}
use guardian_llmprovider_gat.BackendDeath.Runs.{
  Step, refreshed, crashed, step, run, empty_log, new_observer, core,
}
use guardian_llmprovider_gat.BackendDeath.Recorded.{IsFaithful, run-IsFaithful}
use guardian_llmprovider_gat.BackendDeath.Newest.{IsNewest, run-IsNewest}
use guardian_llmprovider_gat.BackendDeath.Polling.{Apart, read_times, read_times-Apart}
use guardian_llmprovider_gat.BackendDeath.Remembered.{Contradicts, after, last_said, said_by_then}
use guardian_llmprovider_gat.BackendDeath.Shown.{backend_state-alive_iff}

abbrev clock_of : String → Option Stamp
clock_of t =
    if str_eq t "2026-01-01T00:00:00+00:00"
    then some (zoned 100)
    else if str_eq t "2026-01-02T00:00:00+00:00"
    then some (zoned 200)
    else none

abbrev number_text : ℤ → String
number_text (pos n) = "0"
number_text (negsuc n) = "-1"

abbrev library : Library
library = record {
  from_iso_format = clock_of;
  lower = λ s. s;
  int_of = λ s. none;
  str_of = number_text;
}

abbrev death : (timestamp : String) → Value
death timestamp = mapping (
    field "last_death"
      (mapping (
        field "cause" (text "oom")
          (field "model" (text "m") (field "timestamp" (text timestamp) end))))
      end)

abbrev poll : (now : ℕ) → (timestamp : String) → Step
poll now timestamp = refreshed now now "t" "t" (response 200 (some (death timestamp)))

abbrev load_crash : CrashRecord
load_crash = record {
  timestamp = "t";
  model = "m";
  error_message = "no memory";
  exit_code = none;
  origin = load_failure;
  cause = none;
}

-- The newer death is reported twice before the older one, and a poll falls into the cache.
abbrev polls : List Step
polls =
    poll 0 "2026-01-02T00:00:00Z"
    ∷ poll 3000 "2026-01-01T00:00:00Z"
    ∷ crashed load_crash
    ∷ poll 6000 "2026-01-02T00:00:00Z"
    ∷ poll 12000 "2026-01-01T00:00:00Z"
    ∷ refreshed 20000 20000 "t" "t" transport_error
    ∷ []

abbrev origins : Option ModelManager → List String
origins none = []
origins (some m) = map (λ (c : CrashRecord). c.timestamp) m.crash_history

history_of_polls :
    origins (run library polls (new_observer 5000, empty_log)).0.manager
    ≡ "2026-01-02T00:00:00Z" ∷ "t" ∷ "2026-01-01T00:00:00Z" ∷ []
unfolding run step observe client_status get
history_of_polls = refl

times_of_polls :
    read_times library polls (new_observer 5000)
    ≡ (0, 0) ∷ (6000, 6000) ∷ (12000, 12000) ∷ (20000, 20000) ∷ []
unfolding read_times observe client_status get
times_of_polls = refl

no_date : (parse_death_signal library "t" (death "yesterday")).1 ≡ none
unfolding parse_death_signal get
no_date = refl

offset_of_z : z_to_offset "12:00Z" ≡ "12:00+00:00"
unfolding z_to_offset
offset_of_z = refl

run-IsFaithful_example :
    IsFaithful library
      (core (run library polls (new_observer 5000, empty_log)).0)
      (run library polls (new_observer 5000, empty_log)).1
run-IsFaithful_example = run-IsFaithful library 5000 polls

run-IsNewest_example :
    IsNewest library
      (run library polls (new_observer 5000, empty_log)).0.last_report
      (run library polls (new_observer 5000, empty_log)).1.read
run-IsNewest_example = run-IsNewest library 5000 polls

read_times-Apart_example : Apart 5000 none (read_times library polls (new_observer 5000))
read_times-Apart_example = read_times-Apart library 5000 polls (omega arith)

backend_state-alive_iff_example :
    (s : Option Fields) × (said_by_then 9000 9001 transport_error
        (after library polls (new_observer 5000))
        (last_said library polls (new_observer 5000) none)
      ≡ some s)
    × (((status_fields
            (observe library true 9000 9001 9002 "t" "t" transport_error
              (after library polls (new_observer 5000))).0
            true
            false
            none).backend_state
          ≡ alive)
        ↔ ((true ≡ true) × (false ≡ false) × (Contradicts s → ⊥)))
backend_state-alive_iff_example =
    backend_state-alive_iff library 5000 polls 9000 9001 9002 "t" "t" transport_error true false
      none
