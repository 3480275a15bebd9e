-- ===== src/BackendDeath.antt =====
-- app/gateway/backend_death.py and app/engine/manager.py: the death of the backend that the caretaker
-- reports, and the history of crashes.
use Prim.Native.Char.{code}
use Prim.Native.String.{◌++◌ as append_text}
use guardian_llmprovider_gat.Prelude.{
  ℕ, zero, suc, ◌+◌, ◌-◌, String, Bool, true, false, not, ◌&&◌, ◌||◌, Option, none, some, List, [],
  ◌∷◌, ◌++◌, ltb, leb, ◌==◌, if◌then◌else◌, str_eq, strip, or_text, last_n, length,
}
use guardian_llmprovider_gat.Value.{
  ℤ, pos, negsuc, Value, null, bool, int, text, mapping, Fields, get, or_null,
}
mod Observer
mod Runs
mod Recorded
mod Newest
mod Polling
mod Remembered
mod Shown
mod Tests

-- A reading of `datetime.fromisoformat`, in seconds: with a time zone (an instant out of range is an
-- error), or without one.
pub data Stamp : Type 0 where
  zoned local : ℕ → Stamp

-- What the code asks of Python's library: `datetime.fromisoformat`, `str.lower`, `int` of a text, and
-- `str` of a number; `none` for a ValueError.
pub record Library : Type 0 where
  pub from_iso_format : String → Option Stamp
  pub lower : String → String
  pub int_of : String → Option ℤ
  pub str_of : ℤ → String

-- text[:limit]
unfoldable pub take_text : ℕ → String → String
take_text zero s = ""
take_text (suc n) String.[] = ""
take_text (suc n) (String.◌∷◌ c s) = String.◌∷◌ c (take_text n s)

unfoldable pub clean_str : ℕ → Value → Option String
unfolding strip take_text
clean_str limit (text t) = let s = strip t in if str_eq s "" then none else some (take_text limit s)
clean_str limit _ = none

unfoldable pub coerce_exit_code : Library → Value → Option ℤ
unfolding strip
coerce_exit_code py (bool b) = none
coerce_exit_code py (int n) = some n
coerce_exit_code py (text t) = py.int_of (strip t)
coerce_exit_code py _ = none

-- The end of a text, or a line feed before it: where `$` matches.
abbrev at_end : String → Bool
at_end String.[] = true
at_end (String.◌∷◌ c s) = code c == 10 && str_eq s ""

-- re.compile(r"Z$").sub("+00:00", value)
unfoldable pub z_to_offset : String → String
z_to_offset String.[] = ""
z_to_offset (String.◌∷◌ c s) =
    let rest = z_to_offset s in
    if code c == b'Z' && at_end s then append_text "+00:00" s else String.◌∷◌ c rest

-- A naive reading is one of UTC.
abbrev as_utc : Option Stamp → Option ℕ
as_utc none = none
as_utc (some (zoned t)) = some t
as_utc (some (local t)) = some t

unfoldable pub parsed_timestamp : Library → String → Option ℕ
unfolding z_to_offset
parsed_timestamp py value = as_utc (py.from_iso_format (z_to_offset value))

unfoldable pub valid_timestamp : Library → String → Bool
unfolding parsed_timestamp
valid_timestamp py value = elim (parsed_timestamp py value) [ none ↦ false | some t ↦ true ]

unfoldable pub optional_bool : String → Fields → Option Bool
optional_bool name status = elim (get name status) [ some (bool b) ↦ some b | _ ↦ none ]

pub record Report : Type 0 where
  pub cause : String
  pub model : String
  pub timestamp : String
  pub exit_code : Option ℤ
  pub signal : Option String
  pub detail : Option String
  pub event_id : Option String
  pub observed_at : String

pub data Fingerprint : Type 0 where
  by_event : (event_id : String) → Fingerprint
  by_record : (timestamp cause model exit_code signal : String) → Fingerprint

unfoldable pub same_fingerprint : Fingerprint → Fingerprint → Bool
same_fingerprint (by_event e) (by_event f) = str_eq e f
same_fingerprint (by_record t c m x s) (by_record t' c' m' x' s') =
    str_eq t t' && str_eq c c' && str_eq m m' && str_eq x x' && str_eq s s'
same_fingerprint _ _ = false

abbrev code_text : Library → Option ℤ → String
code_text py none = ""
code_text py (some n) = py.str_of n

abbrev record_fingerprint : Library → Report → Fingerprint
record_fingerprint py r =
    by_record r.timestamp r.cause r.model (code_text py r.exit_code) (or_text r.signal "")

abbrev event_fingerprint : Option String → Fingerprint → Fingerprint
event_fingerprint none other = other
event_fingerprint (some e) other = if str_eq e "" then other else by_event e

unfoldable pub fingerprint : Library → Report → Fingerprint
fingerprint py r = event_fingerprint r.event_id (record_fingerprint py r)

abbrev part : String → Option String → String
part name none = ""
part name (some v) = if str_eq v "" then "" else append_text ", " (append_text name v)

abbrev code_part : Library → Option ℤ → String
code_part py none = ""
code_part py (some n) = append_text ", exit_code=" (py.str_of n)

unfoldable pub summary : Library → Report → String
summary py r = append_text (append_text "caretaker reported backend death: cause=" r.cause) (
    append_text (part "signal=" r.signal)
      (append_text (code_part py r.exit_code) (part "detail=" r.detail)))

pub data Signal : Type 0 where
  not_configured unsupported empty reported malformed unavailable : Signal

abbrev complete_report :
    Library
    → (payload : Fields) → (observed_at : String) → (cause model timestamp : Option String)
    → Signal × Option Report
complete_report py payload observed_at (some cause) (some model) (some timestamp) =
    if valid_timestamp py timestamp
    then (
      Signal.reported,
      some (record {
        cause = py.lower cause;
        model = model;
        timestamp = timestamp;
        exit_code = coerce_exit_code py (or_null (get "exit_code" payload));
        signal = clean_str 64 (or_null (get "signal" payload));
        detail = clean_str 500 (or_null (get "detail" payload));
        event_id = clean_str 128 (or_null (get "event_id" payload));
        observed_at = observed_at;
      }),
    )
    else (Signal.malformed, none)
complete_report py payload observed_at _ _ _ = (Signal.malformed, none)

abbrev parse_payload : Library → String → Value → Signal × Option Report
parse_payload py observed_at null = (Signal.empty, none)
parse_payload py observed_at (mapping payload) =
    complete_report py payload observed_at (clean_str 64 (or_null (get "cause" payload)))
      (clean_str 200 (or_null (get "model" payload)))
      (clean_str 64 (or_null (get "timestamp" payload)))
parse_payload py observed_at _ = (Signal.malformed, none)

unfoldable pub parse_death_signal :
    Library → (observed_at : String) → Value → Signal × Option Report
unfolding valid_timestamp coerce_exit_code clean_str
parse_death_signal py observed_at (mapping status) = elim (get "last_death" status) [
  | none ↦ (Signal.unsupported, none)
  | some payload ↦ parse_payload py observed_at payload
]
parse_death_signal py observed_at _ = (Signal.malformed, none)

pub data Origin : Type 0 where
  load_failure reported_death : Origin

-- A crash, without the snapshot of the configuration.
pub record CrashRecord : Type 0 where
  pub timestamp : String
  pub model : String
  pub error_message : String
  pub exit_code : Option ℤ
  pub origin : Origin
  pub cause : Option String

pub record ModelManager : Type 0 where
  pub crash_history : List CrashRecord
  pub last_crash : Option CrashRecord

abbrev pub max_crash_history : ℕ
max_crash_history = 50

abbrev pub trimmed {ℓ} : {A : Type ℓ} → ℕ → List A → List A
trimmed limit xs = if ltb limit (length xs) then last_n limit xs else xs

unfoldable pub record_crash : CrashRecord → ModelManager → ModelManager
unfolding last_n
record_crash crash m = record {
  crash_history = trimmed max_crash_history (m.crash_history ++ crash ∷ []);
  last_crash = some crash;
}

abbrev newest_death : List CrashRecord → Option CrashRecord → Option CrashRecord
newest_death [] found = found
newest_death (c ∷ cs) found =
    newest_death cs (elim c.origin [ reported_death ↦ some c | load_failure ↦ found ])

-- The last record of the history whose origin is a reported death.
unfoldable pub last_reported_death : ModelManager → Option CrashRecord
last_reported_death m = newest_death m.crash_history none
