-- ===== src/RateLimit/Execution.antt =====
-- app/proxy/ratelimit.py: `execute_with_retry`, its loop and the scope around it.
use guardian_llmprovider_gat.Prelude.{
  ℕ, zero, suc, ◌+◌, ◌-◌, Bool, true, false, not, Option, none, some, ltb, ◌==◌, if◌then◌else◌,
}
use guardian_llmprovider_gat.RateLimit.{
  RateLimitConfig, Response, RateLimitState, record_429, record_success, sleep_for,
}

-- What the world does in a request: the answer to each attempt, how long it takes, how late a sleep
-- ends, and the random values, by the number of the attempt.
pub record World : Type 0 where
  pub attempt : ℕ → Response
  pub took : ℕ → ℕ
  pub late : ℕ → ℕ
  pub random : ℕ → ℕ

pub record Served : Type 0 where
  pub response : Response
  pub attempts : ℕ
  pub waited : ℕ
  pub state : RateLimitState

abbrev pub served : Response → (retry_count waited : ℕ) → RateLimitState → Served
served response retry_count waited s = record {
  response = response;
  attempts = suc retry_count;
  waited = waited;
  state = s;
}

-- How a round of the loop ends: with a response of another status, with a 429 that is not retried,
-- or with the next round.
unfoldable pub ends_with :
    (is_429 retry : Bool) → (good given_up : Served) → Option Served → Option Served
ends_with false retry good given_up rest = some good
ends_with true false good given_up rest = some given_up
ends_with true true good given_up rest = rest

-- The loop of `execute_with_retry`, on fuel, from attempt `retry_count`.
unfoldable pub attempts_from :
    (fuel : ℕ)
    → RateLimitConfig
    → World
    → (retry_429 : Bool) → (started now retry_count waited : ℕ) → RateLimitState
    → Option Served
unfolding record_429 record_success sleep_for ends_with
attempts_from zero config w retry_429 started now retry_count waited s = none
attempts_from (suc fuel) config w retry_429 started now retry_count waited s =
    let response = w.attempt retry_count in
    let after = now + w.took retry_count in
    let (decision, s') =
      record_429 config after (w.random retry_count) retry_count (after - started) retry_429
        response s in
    let rest =
      attempts_from fuel config w retry_429 started (after + decision.wait + w.late retry_count)
        (suc retry_count) (waited + decision.wait)
        (record (sleep_for decision.wait s') { cooldown_until = 0 }) in
    ends_with (response.status_code == 429) decision.retry
      (served response retry_count waited (record_success (ltb 0 retry_count) s))
      (served response retry_count waited s') rest

-- The start of `_request_scope`: the wait for the cooldown of an earlier request.
unfoldable pub enter_scope : ℕ → RateLimitState → ℕ × RateLimitState
unfolding sleep_for
enter_scope now s =
    let pause = s.cooldown_until - now in
    let s' = record s { active_requests = suc s.active_requests } in
    if pause == 0 then (0, s') else (pause, record (sleep_for pause s') { cooldown_until = 0 })

unfoldable pub leave_scope : RateLimitState → RateLimitState
leave_scope s = record s { active_requests = s.active_requests - 1 }

abbrev pub left : Option Served → Option Served
left none = none
left (some o) = some (record o { state = leave_scope o.state })

-- The body of the `async with`: the loop, and the end of the scope.
unfoldable pub hold_open :
    RateLimitConfig → World → (retry_429 : Bool) → (started : ℕ) → RateLimitState → Option Served
unfolding leave_scope
hold_open config w retry_429 started s =
    left (attempts_from (suc config.max_retries) config w retry_429 started started 0 0 s)

unfoldable pub execute_with_retry :
    RateLimitConfig → World → (retry_429 : Bool) → (now : ℕ) → RateLimitState → Option Served
unfolding enter_scope
execute_with_retry config w retry_429 now s =
    let (pause, s') = enter_scope now s in
    if not config.enabled
    then some (served (w.attempt 0) 0 0 s)
    else hold_open config w retry_429 (now + pause) s'
