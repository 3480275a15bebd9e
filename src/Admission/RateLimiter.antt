-- ===== src/Admission/RateLimiter.antt =====
-- app/proxy/admission.py: `TokenBucketRateLimiter` and `enforce_rate_limit`. Tokens are counted in
-- units of 1/60000 token and times in milliseconds, so that a millisecond refills as many units as
-- requests are allowed a minute: exact numbers in place of the program's floats. The whole seconds of a
-- hint, which floats round to, are a parameter that the limiter holds.
use guardian_llmprovider_gat.Prelude.{
  ℕ, ◌+◌, ◌-◌, ◌*◌, min, max, String, Bool, true, false, not, ◌&&◌, Option, none, some, [], ltb,
  leb, ◌==◌, if◌then◌else◌, length, Result, ok, err, str_eq,
}
use guardian_llmprovider_gat.Dict.{Dict, lookup, insert, retain}
use guardian_llmprovider_gat.Admission.{
  Limit, rate, AdmissionLimits, no_identity, default_requests_per_minute, default_burst,
}
use guardian_llmprovider_gat.Admission.Refusals.{Refusal, misconfigured, rate_limited}

abbrev pub one_token : ℕ
one_token = 60000

pub record Bucket : Type 0 where
  pub tokens : ℕ
  pub updated_at : ℕ

pub record RateLimiter : Type 0 where
  pub buckets : Dict Bucket
  pub requests_per_minute : ℕ
  pub burst : ℕ
  pub ceil_quotient : (missing per_second : ℕ) → ℕ

abbrev pub prune_threshold : ℕ
prune_threshold = 4096

-- `ceil_quotient` is `math.ceil(missing / rate_per_second)` of the floats of these numbers of units.
abbrev pub new_limiter : (ceil_quotient : (missing per_second : ℕ) → ℕ) → RateLimiter
new_limiter ceil_quotient = record {
  buckets = [];
  requests_per_minute = default_requests_per_minute;
  burst = default_burst;
  ceil_quotient = ceil_quotient;
}

unfoldable pub configure : (requests_per_minute burst_size : ℕ) → RateLimiter → RateLimiter
configure requests_per_minute burst_size limiter =
    if requests_per_minute == limiter.requests_per_minute && burst_size == limiter.burst
    then limiter
    else record limiter {
      buckets = [];
      requests_per_minute = requests_per_minute;
      burst = burst_size;
    }

-- The refill of a minute, at least 1.
abbrev pub refill_rate : RateLimiter → ℕ
refill_rate limiter = max limiter.requests_per_minute 1

-- A bucket to keep: idle for at most a minute, or for at most the time that fills it from empty, or
-- with more than one token missing when it was last used.
unfoldable pub keeps : ℕ → RateLimiter → String → Bucket → Bool
keeps now limiter identity bucket = not (
    ltb (limiter.burst * one_token) ((now - bucket.updated_at) * refill_rate limiter)
    && ltb 60000 (now - bucket.updated_at)
    && leb (limiter.burst * one_token) (bucket.tokens + one_token))

unfoldable pub prune : ℕ → RateLimiter → RateLimiter
unfolding keeps
prune now limiter = record limiter { buckets = retain (keeps now limiter) limiter.buckets }

-- The bucket at the time of a check, and the limiter that holds it.
unfoldable pub refilled : ℕ → RateLimiter → Bucket → Bucket
refilled now limiter bucket = record {
  tokens =
      min (limiter.burst * one_token)
        (bucket.tokens + (now - bucket.updated_at) * refill_rate limiter);
  updated_at = now;
}

abbrev pub with_bucket : String → Bucket → RateLimiter → RateLimiter
with_bucket identity bucket limiter = record limiter {
  buckets = insert identity bucket limiter.buckets;
}

abbrev pub full_bucket : ℕ → RateLimiter → Bucket
full_bucket now limiter = record { tokens = limiter.burst * one_token; updated_at = now }

unfoldable pub prune_crowded : ℕ → RateLimiter → RateLimiter
unfolding prune
prune_crowded now limiter =
    if ltb prune_threshold (length limiter.buckets) then prune now limiter else limiter

unfoldable pub charged : String → Bucket → RateLimiter → RateLimiter
charged identity bucket limiter =
    with_bucket identity (record bucket { tokens = bucket.tokens - one_token }) limiter

unfoldable pub retry_after_s : RateLimiter → Bucket → ℕ
retry_after_s limiter bucket =
    max 1 (limiter.ceil_quotient (one_token - bucket.tokens) (1000 * refill_rate limiter))

-- The charge of one token, or the whole seconds until there is one.
unfoldable pub charge : String → Bucket → RateLimiter → (Bool × ℕ) × RateLimiter
unfolding charged retry_after_s
charge identity bucket limiter =
    if leb one_token bucket.tokens
    then ((true, 0), charged identity bucket limiter)
    else ((false, retry_after_s limiter bucket), limiter)

unfoldable pub check : ℕ → String → RateLimiter → (Bool × ℕ) × RateLimiter
unfolding charge prune_crowded refilled
check now identity limiter = elim (lookup identity limiter.buckets) [
  | none ↦
      let bucket = full_bucket now limiter in
      charge identity bucket (prune_crowded now (with_bucket identity bucket limiter))
  | some bucket ↦
      let bucket' = refilled now limiter bucket in
      charge identity bucket' (with_bucket identity bucket' limiter)
]

abbrev pub reset : RateLimiter → RateLimiter
reset limiter = record limiter { buckets = [] }

unfoldable pub check_result :
    (requests_per_minute burst_size : ℕ)
    → (Bool × ℕ) × RateLimiter
    → Result Refusal (Unit {0}) × RateLimiter
check_result r b ((true, s), limiter) = (ok tt, limiter)
check_result r b ((false, s), limiter) = (err (rate_limited r b s), limiter)

unfoldable pub enforce_identity :
    ℕ
    → (requests_per_minute burst_size : ℕ) → Option String
    → RateLimiter
    → Result Refusal (Unit {0}) × RateLimiter
unfolding check configure check_result
enforce_identity now r b none limiter = (err (misconfigured rate no_identity), limiter)
enforce_identity now r b (some identity) limiter =
    if str_eq identity ""
    then (err (misconfigured rate no_identity), limiter)
    else check_result r b (check now identity (configure r b limiter))

unfoldable pub enforce_values :
    ℕ
    → (requests_per_minute burst_size : Option ℕ) → Option String
    → RateLimiter
    → Option (Result Refusal (Unit {0}) × RateLimiter)
unfolding enforce_identity
enforce_values now (some r) (some b) identity limiter =
    some (enforce_identity now r b identity limiter)
enforce_values now _ _ identity limiter = none

-- `none` is the failure of the assertion that both limits have a value.
unfoldable pub enforce_rate_limit :
    ℕ
    → AdmissionLimits
    → Option String
    → RateLimiter
    → Option (Result Refusal (Unit {0}) × RateLimiter)
unfolding enforce_values
enforce_rate_limit now limits identity limiter = elim (limits.invalid_reason rate) [
  | some e ↦ some (err (misconfigured rate e), limiter)
  | none ↦ elim (limits.invalid_reason Limit.burst) [
    | some e ↦ some (err (misconfigured Limit.burst e), limiter)
    | none ↦ enforce_values now limits.requests_per_minute limits.burst_size identity limiter
  ]
]
