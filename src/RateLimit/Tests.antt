-- ===== src/RateLimit/Tests.antt =====
-- The theorems about retries at concrete answers.
use guardian_llmprovider_gat.Prelude.{
  ℕ, ◌+◌, ◌≤◌, ◌<◌, ◌≡◌, ◌↔◌, refl, true, Option, none, some, ltb, if◌then◌else◌,
}
use guardian_llmprovider_gat.RateLimit.{
  RateLimitConfig, RateLimitState, Response, seconds_or_epoch, record_429,
}
use guardian_llmprovider_gat.RateLimit.Execution.{
  World, Served, execute_with_retry, attempts_from, hold_open, enter_scope,
}
use guardian_llmprovider_gat.Value.{pos}
use guardian_llmprovider_gat.RateLimit.Ending.{Ended}
use guardian_llmprovider_gat.RateLimit.Retry.{record_429_decides, execute_with_retry-Ended}

abbrev config : RateLimitConfig
config = record {
  enabled = true;
  max_retries = 3;
  max_hold = 90000;
  base_backoff = 1000;
  max_backoff = 30000;
  jitter = 250;
  respect_retry_after = true;
}

abbrev answer : ℕ → Response
answer status = record {
  status_code = status;
  retry_after = none;
  body_retry_after = none;
  reset = none;
  limit = none;
  remaining = none;
  reset_at = none;
  message = none;
}

-- A provider that is busy for two attempts, and one that asks for two minutes.
abbrev busy_twice : World
busy_twice = record {
  attempt = λ i. if ltb i 2 then answer 429 else answer 200;
  took = λ i. 10;
  late = λ i. 0;
  random = λ i. 500;
}

abbrev long_hint : Response
long_hint = record (answer 429) { retry_after = some (seconds_or_epoch (pos 120000)) }

abbrev idle : RateLimitState
idle = record {
  total_429s = 0;
  total_retries = 0;
  retry_successes = 0;
  retry_exhausted = 0;
  consecutive_429s = 0;
  total_wait = 0;
  last_429_at = none;
  last_retry_after = none;
  last_wait = none;
  last_reset_at = none;
  last_remaining = none;
  last_limit = none;
  last_error_message = none;
  cooldown_until = 0;
  active_requests = 0;
  waiting_requests = 0;
}

abbrev outcome : Option Served → ℕ × (ℕ × ℕ)
outcome none = (0, (0, 0))
outcome (some o) = (o.response.status_code, (o.attempts, o.waited))

-- The names that a run of the model computes with.
abbrev run : RateLimitConfig → World → ℕ × (ℕ × ℕ)
unfolding execute_with_retry hold_open attempts_from
run c w = outcome (execute_with_retry c w true 0 idle)

served_at_third : run config busy_twice ≡ (200, (3, 3000))
unfolding run
served_at_third = refl

execute_with_retry-Ended_example :
    (o : Served) × (execute_with_retry config busy_twice true 0 idle ≡ some o)
    × Ended config busy_twice true (0 + (enter_scope 0 idle).0) o
execute_with_retry-Ended_example = execute_with_retry-Ended config busy_twice true 0 idle

record_429_decides_example :
    (((record_429 config 0 500 0 0 true long_hint idle).0.retry ≡ true) ↔ (
      (true ≡ true)
      × (0 < config.max_retries)
      × (0 + (record_429 config 0 500 0 0 true long_hint idle).0.wait ≤ config.max_hold)))
    × ((record_429 config 0 500 0 0 true long_hint idle).0.wait ≤ config.max_hold)
record_429_decides_example = record_429_decides config 0 500 0 0 true long_hint idle
