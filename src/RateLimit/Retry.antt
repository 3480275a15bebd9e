-- ===== src/RateLimit/Retry.antt =====
-- app/proxy/ratelimit.py: proofs about `record_429` and `execute_with_retry`.
use guardian_llmprovider_gat.Prelude.{
  ℕ, zero, suc, ◌+◌, ◌-◌, ◌≤◌, ◌<◌, ◌≡◌, ◌≢◌, ◌↔◌, ◌⊎◌, refl, ap, ◌∙◌, Bool, true, false, not,
  Option, some, arith, Bool-cases, inl, inr, ltb, leb, ◌==◌, ==_iff, if◌then◌else◌,
}
use guardian_llmprovider_gat.RateLimit.{
  RateLimitConfig, Response, RateLimitState, record_429, delay_of, decide, Reason, sleep_for,
  record_success,
}
use guardian_llmprovider_gat.RateLimit.Execution.{
  served, World, Served, attempts_from, hold_open, left, execute_with_retry, enter_scope,
  leave_scope,
}
use guardian_llmprovider_gat.RateLimit.Ending.{
  answer_time, wait_after, Refused, waits, GivenUp, switched_off, not_asked, out_of_retries,
  over_budget, Ended, ends_with-cases, above_leb, wait-delay,
}

delay_of-le :
    (config : RateLimitConfig) (now random count : ℕ) (allow : Bool) (response : Response)
    → delay_of config now random count allow response ≤ config.max_hold
unfolding delay_of
delay_of-le config now random count allow response = omega arith

decide_lem :
    (config : RateLimitConfig) (count elapsed delay : ℕ) (allow : Bool) (why : Reason)
    → delay ≤ config.max_hold
    → let decision = decide config count elapsed delay allow why in
      ((decision.retry ≡ true) ↔ (
        (allow ≡ true)
        × (count < config.max_retries)
        × (elapsed + decision.wait ≤ config.max_hold)))
      × (decision.wait ≤ config.max_hold)
unfolding decide
decide_lem config count elapsed delay false why h = ground arith
decide_lem config count elapsed delay true why h =
    elim (Bool-cases (leb config.max_retries count)) [
      | inl m ↦ rw m (ground arith)
      | inr m ↦ elim (Bool-cases (ltb config.max_hold (elapsed + delay))) [
        | inl o ↦ rw (m, o) (ground arith)
        | inr o ↦ rw (m, o) (ground arith)
      ]
    ]

-- A 429 is retried exactly if retries are allowed, fewer than the bound were made, and the wait still
-- fits in the hold budget; and no wait is longer than the budget, retried or not.
pub record_429_decides :
    (config : RateLimitConfig) (now random count elapsed : ℕ) (allow : Bool) (response : Response)
    (s : RateLimitState)
    → let decision = (record_429 config now random count elapsed allow response s).0 in
      ((decision.retry ≡ true) ↔ (
        (allow ≡ true)
        × (count < config.max_retries)
        × (elapsed + decision.wait ≤ config.max_hold)))
      × (decision.wait ≤ config.max_hold)
unfolding record_429
record_429_decides config now random count elapsed allow response s =
    decide_lem config count elapsed (delay_of config now random count allow response) allow _
      (delay_of-le config now random count allow response)

module _ (config : RateLimitConfig) (w : World) (retry_429 : Bool) (started : ℕ) where
  served-Ended :
      (count waited : ℕ) (s : RateLimitState)
      → count ≤ config.max_retries
      → waited ≡ waits config w retry_429 started count
      → waited ≤ config.max_hold
      → Refused config w retry_429 started count
      → (((w.attempt count).status_code ≢ 429) ⊎ GivenUp config w retry_429 started count)
      → Ended config w retry_429 started (served (w.attempt count) count waited s)
  served-Ended count waited s a t b r l = record {
    retries = count;
    counts = refl;
    in_bound = a;
    its_response = refl;
    earlier = r;
    last = l;
    its_waits = t;
    in_budget = b;
  }

  not_retried-GivenUp :
      (count wait : ℕ) (retry : Bool)
      → ((retry ≡ true) ↔ (
          (retry_429 ≡ true)
          × (count < config.max_retries)
          × ((answer_time config w retry_429 started count - started) + wait ≤ config.max_hold)))
      → (retry_429 ≡ true → wait ≡ wait_after config w retry_429 started count)
      → count ≤ config.max_retries
      → retry ≡ false
      → GivenUp config w retry_429 started count
  not_retried-GivenUp count wait retry d due m r = elim (Bool-cases retry_429) [
    | inr x ↦ not_asked x
    | inl x ↦ elim (Bool-cases (leb config.max_retries count)) [
      | inl y ↦ out_of_retries (ground arith)
      | inr y ↦
          let elapsed = answer_time config w retry_429 started count - started in
          elim (Bool-cases (leb (elapsed + wait) config.max_hold)) [
            | inl z ↦
                let yes : retry ≡ true = d.1 (x, ground arith, ground arith) in
                absurd (ground arith)
            | inr z ↦
                over_budget (omega (arith, due x, above_leb (elapsed + wait) config.max_hold z))
          ]
    ]
  ]

  attempts_from-Ended :
      (fuel now count waited : ℕ) (s : RateLimitState)
      → count + fuel ≡ suc config.max_retries
      → 0 < fuel
      → now + w.took count ≡ answer_time config w retry_429 started count
      → started + waited ≤ now
      → waited ≡ waits config w retry_429 started count
      → waited ≤ config.max_hold
      → Refused config w retry_429 started count
      → (o : Served) × (attempts_from fuel config w retry_429 started now count waited s ≡ some o)
        × Ended config w retry_429 started o
  unfolding attempts_from answer_time
  attempts_from-Ended zero now count waited s f p at t q b r = absurd (omega arith)
  attempts_from-Ended (suc fuel) now count waited s f p at t q b r =
      let response = w.attempt count in
      let after = now + w.took count in
      let r429 =
        record_429 config after (w.random count) count (after - started) retry_429 response s in
      let (decides, short) =
        record_429_decides config after (w.random count) count (after - started) retry_429 response
          s in
      let due : retry_429 ≡ true → r429.0.wait ≡ wait_after config w retry_429 started count = λ x.
        wait-delay config after (w.random count) count (after - started) retry_429 response s x
        ∙ ap (λ y. delay_of config y (w.random count) count retry_429 response) at in
      ends_with-cases (Ended config w retry_429 started) (response.status_code == 429) r429.0.retry
        (served response count waited (record_success (ltb 0 count) s))
        (served response count waited r429.1) _
        (λ x.
          served-Ended count waited _ (omega arith) q b r
            (inl (λ (e : response.status_code ≡ 429). ground (arith, x, e))))
        (λ x y. served-Ended count waited _ (omega arith) q b r (
          inr (
            not_retried-GivenUp count r429.0.wait r429.0.retry
              (
                λ h. let (a, c, e) = decides.0 h in (a, c, omega (arith, at, e)),
                λ (a, c, e). decides.1 (a, c, omega (arith, at, e)),
              )
              due (omega arith) y)))
        (λ x y.
          let (allowed, few, fits) = decides.0 y in
          attempts_from-Ended fuel (after + r429.0.wait + w.late count) (suc count)
            (waited + r429.0.wait) (record (sleep_for r429.0.wait r429.1) { cooldown_until = 0 })
            (omega arith) (omega arith) (omega (arith, at, due allowed)) (omega arith)
            (omega (arith, q, due allowed)) (omega arith)
            (r, (==_iff response.status_code 429).0 x, omega (arith, at, due allowed, fits)))

  hold_open-Ended :
      (s : RateLimitState)
      → (o : Served) × (hold_open config w retry_429 started s ≡ some o)
        × Ended config w retry_429 started o
  unfolding hold_open answer_time
  hold_open-Ended s =
      let (o, e, h) =
        attempts_from-Ended (suc config.max_retries) started 0 0 s (omega arith) (omega arith) refl
          (omega arith) refl (omega arith) tt in
      (
        record o { state = leave_scope o.state },
        ap left e,
        record {
          retries = h.retries;
          counts = h.counts;
          in_bound = h.in_bound;
          its_response = h.its_response;
          earlier = h.earlier;
          last = h.last;
          its_waits = h.its_waits;
          in_budget = h.in_budget;
        },
      )

  enabled-Ended :
      (enabled : Bool) (held : Option Served) (s : RateLimitState)
      → config.enabled ≡ enabled
      → (o : Served) × (held ≡ some o) × Ended config w retry_429 started o
      → (o : Served) × ((if not enabled then some (served (w.attempt 0) 0 0 s) else held) ≡ some o)
        × Ended config w retry_429 started o
  enabled-Ended true held s x h = h
  enabled-Ended false held s x h = (
    served (w.attempt 0) 0 0 s,
    refl,
    served-Ended 0 0 s (omega arith) refl (omega arith) tt (inr (switched_off x)),
  )

-- Every request whose attempts raise nothing ends, whatever the provider answers and however long
-- attempts and sleeps take: after at most `max_retries` retries, and with the answer to the last
-- attempt. All earlier answers were 429, and the wait that was due after each fitted in the hold budget.
-- The last one is a 429 only if retries are switched off or not asked for, or all have been made, or the
-- wait that is due after it does not fit any more, counted from the start after the cooldown. And what
-- was waited between the attempts is the sum of the waits due, and no more than that budget.
pub execute_with_retry-Ended :
    (config : RateLimitConfig) (w : World) (retry_429 : Bool) (now : ℕ) (s : RateLimitState)
    → (o : Served) × (execute_with_retry config w retry_429 now s ≡ some o)
      × Ended config w retry_429 (now + (enter_scope now s).0) o
unfolding execute_with_retry
execute_with_retry-Ended config w retry_429 now s =
    let (pause, s') = enter_scope now s in
    enabled-Ended config w retry_429 (now + pause) config.enabled
      (hold_open config w retry_429 (now + pause) s') s refl
      (hold_open-Ended config w retry_429 (now + pause) s')
