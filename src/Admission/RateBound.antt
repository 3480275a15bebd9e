-- ===== src/Admission/RateBound.antt =====
-- app/proxy/admission.py: proofs about the checks of one identity over a stretch of time.
use guardian_llmprovider_gat.Prelude.{
  ℕ, ◌+◌, ◌-◌, ◌*◌, ◌≤◌, max, String, ◌≡◌, sym, ap, subst, ◌∙◌, ◌&&◌, List, [], ◌∷◌, arith, str_eq,
  if◌then◌else◌,
}
use guardian_llmprovider_gat.Admission.RateLimiter.{RateLimiter, check, refill_rate, one_token}
use guardian_llmprovider_gat.Admission.Rates.{
  level, level-le, level-later, check-level, check_fields,
}
use native.Mathlib.Nat.{add-mul}

-- The checks that a stretch of time makes, of any identities, in the order of their times.
abbrev pub Timed : ℕ → List (ℕ × String) → ℕ → Type 0
Timed from [] to = from ≤ to
Timed from ((now, identity) ∷ checks) to = (from ≤ now) × Timed now checks to

-- How many checks of `k` they let through.
abbrev pub allowed : String → List (ℕ × String) → RateLimiter → ℕ
allowed k [] limiter = 0
allowed k ((now, identity) ∷ checks) limiter =
    (if str_eq identity k && (check now identity limiter).0.0 then 1 else 0)
    + allowed k checks (check now identity limiter).1

Timed-le : (from to : ℕ) (checks : List (ℕ × String)) → Timed from checks to → from ≤ to
Timed-le from to [] h = h
Timed-le from to ((now, identity) ∷ checks) h = omega (arith, h.0, Timed-le now to checks h.1)

rate-check :
    (now : ℕ) (identity : String) (limiter : RateLimiter)
    → refill_rate (check now identity limiter).1 ≡ refill_rate limiter
rate-check now identity limiter = ap (λ r. max r 1) (check_fields now identity limiter).1

split_time :
    (from now to r : ℕ)
    → from ≤ now
    → now ≤ to
    → (now - from) * r + (to - now) * r ≡ (to - from) * r
split_time from now to r h k =
    let e : (now - from) + (to - now) ≡ to - from = omega arith in
    sym (add-mul (now - from) (to - now) r) ∙ ap (λ x. x * r) e

allowed-level :
    (from to : ℕ) (k : String) (checks : List (ℕ × String)) (limiter : RateLimiter)
    → Timed from checks to
    → allowed k checks limiter * one_token
      ≤ level from k limiter + (to - from) * refill_rate limiter
allowed-level from to k [] limiter h = omega arith
allowed-level from to k ((now, identity) ∷ checks) limiter h =
    let l = (check now identity limiter).1 in
    let rest : allowed k checks l * one_token ≤ level now k l + (to - now) * refill_rate limiter =
      subst (λ r. allowed k checks l * one_token ≤ level now k l + (to - now) * r)
        (rate-check now identity limiter) (allowed-level now to k checks l h.1) in
    ground (
      arith,
      rest,
      check-level now identity k limiter,
      level-later from now k limiter h.0,
      split_time from now to (refill_rate limiter) h.0 (Timed-le now to checks h.1),
    )

-- However the checks of an identity are spread over a stretch of time and mixed with those of
-- others, from any state of the limiter, no more of them are let through than the burst and what the
-- rate refills in that time, if the clock does not go back: tokens are counted in 1/60000.
pub rate_bound :
    (from to : ℕ) (k : String) (checks : List (ℕ × String)) (limiter : RateLimiter)
    → Timed from checks to
    → allowed k checks limiter * one_token
      ≤ limiter.burst * one_token + (to - from) * max limiter.requests_per_minute 1
rate_bound from to k checks limiter h =
    omega (arith, allowed-level from to k checks limiter h, level-le from k limiter)
