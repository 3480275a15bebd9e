-- ===== src/RateLimit/Ending.antt =====
-- app/proxy/ratelimit.py: what is to be said of a request that `execute_with_retry` has served.
use guardian_llmprovider_gat.Prelude.{
  ℕ, zero, suc, ◌+◌, ◌-◌, ◌≤◌, ◌<◌, ◌≡◌, ◌≢◌, ◌⊎◌, refl, Bool, true, false, Option, some, arith,
  Bool-cases, inl, inr, ltb, leb,
}
use guardian_llmprovider_gat.RateLimit.{
  RateLimitConfig, Response, RateLimitState, record_429, delay_of, decide,
}
use guardian_llmprovider_gat.RateLimit.Execution.{ends_with, World, Served}

module _ (config : RateLimitConfig) (w : World) (retry_429 : Bool) (started : ℕ) where
  -- When the answer to an attempt comes, if all before it were 429 and retried.
  unfoldable pub answer_time : ℕ → ℕ
  answer_time zero = started + w.took 0
  answer_time (suc n) =
      let t = answer_time n in
      t + delay_of config t (w.random n) n retry_429 (w.attempt n) + w.late n + w.took (suc n)

  -- The wait that is due after it.
  abbrev pub wait_after : ℕ → ℕ
  wait_after n = delay_of config (answer_time n) (w.random n) n retry_429 (w.attempt n)

  -- The wait still fits in the hold budget.
  abbrev pub Fits : ℕ → Type 0
  Fits n = (answer_time n - started) + wait_after n ≤ config.max_hold

  -- The first so many attempts were answered with 429, each with a wait that fitted.
  abbrev pub Refused : ℕ → Type 0
  Refused zero = Unit {0}
  Refused (suc n) = Refused n × ((w.attempt n).status_code ≡ 429) × Fits n

  abbrev pub waits : ℕ → ℕ
  waits zero = 0
  waits (suc n) = waits n + wait_after n

  -- Why a 429 that is the answer to this attempt is not retried.
  pub data GivenUp (n : ℕ) : Type 0 where
    switched_off : config.enabled ≡ false → GivenUp n
    not_asked : retry_429 ≡ false → GivenUp n
    out_of_retries : n ≡ config.max_retries → GivenUp n
    over_budget : config.max_hold < (answer_time n - started) + wait_after n → GivenUp n

  -- What is to be said of a request that has been served.
  pub record Ended (o : Served) : Type 0 where
    pub retries : ℕ
    pub counts : o.attempts ≡ suc retries
    pub in_bound : retries ≤ config.max_retries
    pub its_response : o.response ≡ w.attempt retries
    pub earlier : Refused retries
    pub last : (o.response.status_code ≢ 429) ⊎ GivenUp retries
    pub its_waits : o.waited ≡ waits retries
    pub in_budget : o.waited ≤ config.max_hold

pub ends_with-cases :
    (P : Served → Type 0) (is_429 retry : Bool) (good given_up : Served) (rest : Option Served)
    → (is_429 ≡ false → P good)
    → (is_429 ≡ true → retry ≡ false → P given_up)
    → (is_429 ≡ true → retry ≡ true → (o : Served) × (rest ≡ some o) × P o)
    → (o : Served) × (ends_with is_429 retry good given_up rest ≡ some o) × P o
unfolding ends_with
ends_with-cases P false retry good given_up rest a b c = (good, refl, a refl)
ends_with-cases P true false good given_up rest a b c = (given_up, refl, b refl refl)
ends_with-cases P true true good given_up rest a b c = c refl refl

pub above_leb : (a b : ℕ) → leb a b ≡ false → b < a
above_leb a b h = ground arith

-- The wait of a decision is the delay, if retries are asked for.
pub wait-delay :
    (config : RateLimitConfig) (now random count elapsed : ℕ) (allow : Bool) (response : Response)
    (s : RateLimitState)
    → allow ≡ true
    → (record_429 config now random count elapsed allow response s).0.wait
      ≡ delay_of config now random count allow response
unfolding record_429 decide
wait-delay config now random count elapsed false response s h = cc
wait-delay config now random count elapsed true response s h =
    let delay = delay_of config now random count true response in
    elim (Bool-cases (leb config.max_retries count)) [
      | inl m ↦ rw m refl
      | inr m ↦ elim (Bool-cases (ltb config.max_hold (elapsed + delay))) [
        | inl o ↦ rw (m, o) refl
        | inr o ↦ rw (m, o) refl
      ]
    ]
