-- ===== src/Admission.antt =====
-- app/proxy/admission.py: the bounds of admission, resolved from the configuration, and the refusal
-- of a request where one of them cannot be resolved. The cache of `resolve_limits` is left out: it
-- holds the limits of the section that it is keyed by.
use guardian_llmprovider_gat.Prelude.{
  ℕ, ◌*◌, String, Bool, true, false, not, ◌&&◌, ◌||◌, Option, none, some, List, [], ◌∷◌, ltb,
  if◌then◌else◌, Result, ok, err, str_eq, is_some,
}
use guardian_llmprovider_gat.Value.{
  ℤ, pos, negsuc, Value, null, bool, int, whole, fractional, infinite, mapping, Fields, get, member,
}
pub mod Limits
pub mod Refusals
pub mod RateLimiter
pub mod Body
mod Rates
mod RateBound
mod Bodies
mod Replay
pub mod Enforcement
mod Tests

abbrev pub default_max_body_bytes : ℕ
default_max_body_bytes = 32 * 1024 * 1024

abbrev pub default_queue_max_depth : ℕ
default_queue_max_depth = 32

abbrev pub default_requests_per_minute : ℕ
default_requests_per_minute = 300

abbrev pub default_burst : ℕ
default_burst = 300

abbrev pub default_queue_full_retry_after_s : ℕ
default_queue_full_retry_after_s = 60

pub data Limit : Type 0 where
  body queue_depth queue_retry rate burst : Limit

abbrev pub path : Limit → List String
path body = "max_body_bytes" ∷ []
path queue_depth = "queue_max_depth" ∷ []
path queue_retry = "queue_full_retry_after_seconds" ∷ []
path rate = "rate_limit" ∷ "requests_per_minute" ∷ []
path burst = "rate_limit" ∷ "burst" ∷ []

abbrev pub default : Limit → ℕ
default body = default_max_body_bytes
default queue_depth = default_queue_max_depth
default queue_retry = default_queue_full_retry_after_s
default rate = default_requests_per_minute
default burst = default_burst

-- The reason texts, and the one that the unauthenticated identity is refused with.
pub data Reason : Type 0 where
  boolean not_finite not_whole is_null wrong_type section_not_mapping no_identity : Reason
  below_minimum : ℤ → ℕ → Reason
  not_mapping : String → Reason
  retry_hint : Reason → Reason

abbrev bounded : ℤ → ℕ → Result Reason ℕ
bounded (pos n) minimum = if ltb n minimum then err (below_minimum (pos n) minimum) else ok n
bounded (negsuc n) minimum = err (below_minimum (negsuc n) minimum)

-- A float that is a whole number is taken as one, other than the function's docstring says.
unfoldable pub coerce_bound : Value → ℕ → Result Reason ℕ
coerce_bound (bool b) minimum = err boolean
coerce_bound (int n) minimum = bounded n minimum
coerce_bound infinite minimum = err not_finite
coerce_bound fractional minimum = err not_whole
coerce_bound (whole n) minimum = bounded n minimum
coerce_bound null minimum = err is_null
coerce_bound _ minimum = err wrong_type

-- `configured` with the coerced value, or the absent key that has the shipped default.
pub data Resolved : Type 0 where
  configured : Result Reason ℕ → Resolved
  shipped_default : ℕ → Resolved

-- The walk from the section along the path.
unfoldable pub resolve_from : Value → List String → ℕ → Resolved
resolve_from node [] default = configured (coerce_bound node 1)
resolve_from (mapping fs) (part ∷ rest) default = elim (get part fs) [
  | none ↦ shipped_default default
  | some v ↦ resolve_from v rest default
]
resolve_from _ (part ∷ rest) default = configured (err (not_mapping part))

unfoldable pub resolve_one : Option Value → List String → ℕ → Resolved
unfolding resolve_from
resolve_one none path default = shipped_default default
resolve_one (some section) path default = resolve_from section path default

pub data Source : Type 0 where
  all_configured all_shipped invalid mixed : Source

pub record AdmissionLimits : Type 0 where
  pub max_body_bytes : Option ℕ
  pub queue_max_depth : Option ℕ
  pub queue_full_retry_after_s : Option ℕ
  pub requests_per_minute : Option ℕ
  pub burst_size : Option ℕ
  pub invalid_reason : Limit → Option Reason
  pub source : Source

abbrev pub value_of : Resolved → Option ℕ
value_of (configured (ok n)) = some n
value_of (configured (err e)) = none
value_of (shipped_default n) = some n

abbrev pub error_of : Resolved → Option Reason
error_of (configured (err e)) = some e
error_of _ = none

abbrev is_configured : Resolved → Bool
is_configured (configured (ok n)) = true
is_configured _ = false

abbrev is_shipped : Resolved → Bool
is_shipped (shipped_default n) = true
is_shipped _ = false

-- The reason of a limit, with the retry hint's for a queue depth that has none of its own.
unfoldable pub with_retry_hint : (Limit → Option Reason) → Limit → Option Reason
with_retry_hint reason queue_depth = elim (reason queue_depth) [
  | some e ↦ some e
  | none ↦ elim (reason queue_retry) [ none ↦ none | some e ↦ some (retry_hint e) ]
]
with_retry_hint reason limit = reason limit

unfoldable pub any_limit : (Limit → Bool) → Bool
any_limit test = test body || test queue_depth || test queue_retry || test rate || test Limit.burst

unfoldable pub source_of : (Limit → Resolved) → Source
unfolding any_limit
source_of taken =
    let shipped = any_limit (λ l. is_shipped (taken l)) in
    let valid = any_limit (λ l. is_configured (taken l)) in
    let broken = any_limit (λ l. is_some (error_of (taken l))) in
    if shipped && not valid && not broken
    then all_shipped
    else if broken
    then invalid
    else if shipped && valid
    then mixed
    else all_configured

unfoldable pub take_limits : (Limit → Resolved) → AdmissionLimits
unfolding with_retry_hint source_of
take_limits taken = record {
  max_body_bytes = value_of (taken body);
  queue_max_depth = value_of (taken queue_depth);
  queue_full_retry_after_s = value_of (taken queue_retry);
  requests_per_minute = value_of (taken rate);
  burst_size = value_of (taken Limit.burst);
  invalid_reason = with_retry_hint (λ l. error_of (taken l));
  source = source_of taken;
}

abbrev pub all_invalid : AdmissionLimits
all_invalid = record {
  max_body_bytes = none;
  queue_max_depth = none;
  queue_full_retry_after_s = none;
  requests_per_minute = none;
  burst_size = none;
  invalid_reason = λ l. some section_not_mapping;
  source = invalid;
}

unfoldable pub parse_limits : Option Value → AdmissionLimits
unfolding take_limits resolve_one
parse_limits none = take_limits (λ l. resolve_one none (path l) (default l))
parse_limits (some (mapping fs)) =
    take_limits (λ l. resolve_one (some (mapping fs)) (path l) (default l))
parse_limits (some _) = all_invalid

unfoldable pub resolve_limits : Value → AdmissionLimits
unfolding parse_limits
resolve_limits config = parse_limits (member "admission" config)

abbrev pub limit_value : AdmissionLimits → Limit → Option ℕ
limit_value limits body = limits.max_body_bytes
limit_value limits queue_depth = limits.queue_max_depth
limit_value limits queue_retry = limits.queue_full_retry_after_s
limit_value limits rate = limits.requests_per_minute
limit_value limits burst = limits.burst_size
