-- ===== src/RateLimit.antt =====
-- app/proxy/ratelimit.py: the retries of a cloud request that the provider answers with 429, for one
-- key and provider. Times are in milliseconds, and a jittered delay is rounded down to one. What
-- `float`, `email.utils` and `json` read of a response's texts is part of the `Response`.
use guardian_llmprovider_gat.Prelude.{
  ℕ, zero, suc, ◌+◌, ◌-◌, ◌*◌, ◌/◌, min, max, String, Bool, true, false, not, ◌&&◌, Option, none,
  some, ltb, leb, ◌==◌, if◌then◌else◌, is_some,
}
use guardian_llmprovider_gat.Value.{ℤ, pos, negsuc}
mod Execution
mod Ending
mod Retry
mod Tests

-- The jitter factor is in thousandths, of at most 1000.
pub record RateLimitConfig : Type 0 where
  pub enabled : Bool
  pub max_retries : ℕ
  pub max_hold : ℕ
  pub base_backoff : ℕ
  pub max_backoff : ℕ
  pub jitter : ℕ
  pub respect_retry_after : Bool

-- A response, with its texts read: `retry_after` and `reset` are what `Retry-After` and the reset
-- header hold, a delay or a date; the body has its own delay; the limits and the message are hints.
pub data Delay : Type 0 where
  seconds_or_epoch : ℤ → Delay
  date : ℤ → Delay
  unreadable : Delay

pub record Response : Type 0 where
  pub status_code : ℕ
  pub retry_after : Option Delay
  pub body_retry_after : Option ℤ
  pub reset : Option Delay
  pub limit : Option ℕ
  pub remaining : Option ℕ
  pub reset_at : Option ℕ
  pub message : Option String

abbrev clamped : ℤ → ℕ
clamped (pos n) = n
clamped (negsuc n) = 0

-- A number above 10^9 seconds is a time, and any other a delay.
unfoldable pub parse_delay_value : ℕ → Delay → Option ℕ
parse_delay_value now (seconds_or_epoch n) =
    let delay = clamped n in some (if ltb 1000000000000 delay then delay - now else delay)
parse_delay_value now (date n) = some (clamped n - now)
parse_delay_value now unreadable = none

abbrev parse_reset : ℕ → Option Delay → Option ℕ
parse_reset now none = none
parse_reset now (some d) = parse_delay_value now d

abbrev hinted : ℕ → Response → Option ℕ
hinted now response = elim response.retry_after [
  | some d ↦ parse_delay_value now d
  | none ↦ elim response.body_retry_after [
    | some n ↦ some (clamped n)
    | none ↦ parse_reset now response.reset
  ]
]

abbrev capped : ℕ → Option ℕ → Option ℕ
capped bound none = none
capped bound (some delay) = some (min delay bound)

unfoldable pub parse_retry_after : RateLimitConfig → ℕ → Response → Option ℕ
unfolding parse_delay_value
parse_retry_after config now response = capped config.max_hold (hinted now response)

abbrev doubled : ℕ → ℕ → ℕ
doubled base zero = base
doubled base (suc n) = 2 * doubled base n

-- `random` is in thousandths too: the delay is spread by (2 * random - 1) * jitter.
unfoldable pub backoff : RateLimitConfig → (random retry_count : ℕ) → ℕ
backoff config random retry_count =
    let delay = min (doubled config.base_backoff retry_count) config.max_backoff in
    let spread = (1000000 + 2 * random * config.jitter) - 1000 * config.jitter in
    let jittered =
      if not (delay == 0) && not (config.jitter == 0) then (delay * spread) / 1000000 else delay in
    min jittered config.max_backoff

pub data Reason : Type 0 where
  failover max_retries_reached max_hold_reached retry_after_hint exponential_backoff : Reason

pub record RateLimitDecision : Type 0 where
  pub retry : Bool
  pub wait : ℕ
  pub reason : Reason

pub record RateLimitState : Type 0 where
  pub total_429s : ℕ
  pub total_retries : ℕ
  pub retry_successes : ℕ
  pub retry_exhausted : ℕ
  pub consecutive_429s : ℕ
  pub total_wait : ℕ
  pub last_429_at : Option ℕ
  pub last_retry_after : Option ℕ
  pub last_wait : Option ℕ
  pub last_reset_at : Option ℕ
  pub last_remaining : Option ℕ
  pub last_limit : Option ℕ
  pub last_error_message : Option String
  pub cooldown_until : ℕ
  pub active_requests : ℕ
  pub waiting_requests : ℕ

-- `new if new is not None else old`
abbrev newer : Option ℕ → Option ℕ → Option ℕ
newer none old = old
newer (some n) old = some n

abbrev hint_or : Option ℕ → ℕ → ℕ
hint_or none y = y
hint_or (some x) y = x

-- The delay of a 429: the provider's hint or the backoff, within the hold budget.
unfoldable pub delay_of :
    RateLimitConfig → (now random retry_count : ℕ) → (allow_retry : Bool) → Response → ℕ
unfolding parse_retry_after backoff
delay_of config now random retry_count allow_retry response =
    let own = backoff config random retry_count in
    let hint = hint_or (parse_retry_after config now response) own in
    let delay = if config.respect_retry_after then hint else own in
    min (if allow_retry then delay else 0) config.max_hold

unfoldable pub noted_429 :
    RateLimitConfig → (now delay : ℕ) → Response → RateLimitState → RateLimitState
unfolding parse_retry_after
noted_429 config now delay response s = record s {
  total_429s = suc s.total_429s;
  consecutive_429s = suc s.consecutive_429s;
  last_429_at = some now;
  last_retry_after = parse_retry_after config now response;
  last_error_message = response.message;
  last_limit = newer response.limit s.last_limit;
  last_remaining = newer response.remaining s.last_remaining;
  last_reset_at = newer response.reset_at s.last_reset_at;
  last_wait = some delay;
  cooldown_until = max s.cooldown_until (now + delay);
}

-- The decision on a delay, with the reason of a retry.
unfoldable pub decide :
    RateLimitConfig
    → (retry_count elapsed delay : ℕ) → (allow_retry : Bool) → Reason
    → RateLimitDecision
decide config retry_count elapsed delay allow_retry why =
    if not allow_retry
    then record { retry = false; wait = 0; reason = failover }
    else if leb config.max_retries retry_count
    then record { retry = false; wait = delay; reason = max_retries_reached }
    else if ltb config.max_hold (elapsed + delay)
    then record { retry = false; wait = delay; reason = max_hold_reached }
    else record { retry = true; wait = delay; reason = why }

unfoldable pub counted : RateLimitDecision → RateLimitState → RateLimitState
counted decision s =
    if decision.retry
    then record s { total_retries = suc s.total_retries }
    else record s { retry_exhausted = suc s.retry_exhausted }

-- One clock stands for the wall clock and the monotonic one.
unfoldable pub record_429 :
    RateLimitConfig
    → (now random retry_count elapsed : ℕ) → (allow_retry : Bool) → Response
    → RateLimitState
    → RateLimitDecision × RateLimitState
unfolding delay_of noted_429 decide counted
record_429 config now random retry_count elapsed allow_retry response s =
    let delay = delay_of config now random retry_count allow_retry response in
    let why =
      if is_some (parse_retry_after config now response)
      then retry_after_hint
      else exponential_backoff in
    let decision = decide config retry_count elapsed delay allow_retry why in
    (decision, counted decision (noted_429 config now delay response s))

unfoldable pub record_success : (retried : Bool) → RateLimitState → RateLimitState
record_success retried s = record s {
  retry_successes = if retried then suc s.retry_successes else s.retry_successes;
  consecutive_429s = 0;
  cooldown_until = 0;
}

unfoldable pub sleep_for : ℕ → RateLimitState → RateLimitState
sleep_for delay s = record s { total_wait = s.total_wait + delay }
