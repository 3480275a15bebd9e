-- ===== src/Admission/Enforcement.antt =====
-- app/proxy/admission.py: proofs about the gates of the rate, the body and the queue, with the limits
-- that a configuration resolves to.
use guardian_llmprovider_gat.Prelude.{
  ℕ, String, ◌≡◌, ◌≢◌, ◌⊎◌, refl, ap, Bool, true, false, Option, none, some, arith, eq_iff, str_eq,
  inl, inr, Bool-cases, Option-cases, Result, ok, err,
}
use guardian_llmprovider_gat.Value.{Value}
use guardian_llmprovider_gat.Admission.{
  queue_depth, queue_retry, Reason, Limit, rate, no_identity, parse_limits, AdmissionLimits,
}
use guardian_llmprovider_gat.Admission.Refusals.{
  check_queue_admission, queue_depth_error, queue_full_retry_after, retry_after, Refusal,
  misconfigured, rate_limited,
}
use guardian_llmprovider_gat.Admission.RateLimiter.{
  RateLimiter, check, configure, check_result, enforce_identity, enforce_rate_limit,
}
use guardian_llmprovider_gat.Admission.Limits.{InForce-iff, InForce, parse-valued}

-- What a check does to the request, by its answer.
abbrev pub Answered : ℕ → ℕ → Bool × ℕ → Result Refusal (Unit {0}) → Type 0
Answered r b (true, s) result = result ≡ ok tt
Answered r b (false, s) result = result ≡ err (rate_limited r b s)

-- The bucket of the identity was asked, under limits that are in force, and its answer was kept to.
pub record Asked (now : ℕ) (limits : AdmissionLimits) (identity : Option String)
    (before after : RateLimiter) (result : Result Refusal (Unit {0})) : Type 0 where
  pub requests_per_minute : ℕ
  pub burst_size : ℕ
  pub name : String
  pub rate_in_force : InForce limits rate requests_per_minute
  pub burst_in_force : InForce limits Limit.burst burst_size
  pub named : identity ≡ some name
  pub not_empty : name ≢ ""
  pub kept : after ≡ (check now name (configure requests_per_minute burst_size before)).1
  pub answered :
      Answered requests_per_minute burst_size
        (check now name (configure requests_per_minute burst_size before)).0
        result

-- Refused with a 503, and no bucket touched.
abbrev pub Misconfigured : RateLimiter → RateLimiter → Result Refusal (Unit {0}) → Type 0
Misconfigured before after result =
    (after ≡ before) × (l : Limit) × (e : _) × (result ≡ err (misconfigured l e))

check_result-Answered :
    (r b : ℕ) (c : (Bool × ℕ) × RateLimiter)
    → Answered r b c.0 (check_result r b c).0 × ((check_result r b c).1 ≡ c.1)
unfolding check_result
check_result-Answered r b ((true, s), l) = (refl, refl)
check_result-Answered r b ((false, s), l) = (refl, refl)

enforce_identity-outcome :
    (now r b : ℕ) (limits : AdmissionLimits) (identity : Option String) (limiter : RateLimiter)
    → InForce limits rate r
    → InForce limits Limit.burst b
    → (result : Result Refusal (Unit {0})) × (after : RateLimiter) × (enforce_identity now r b
          identity limiter
        ≡ (result, after))
      × (Misconfigured limiter after result ⊎ Asked now limits identity limiter after result)
unfolding enforce_identity
enforce_identity-outcome now r b limits none limiter f g =
    (err (misconfigured rate no_identity), limiter, refl, inl (refl, rate, no_identity, refl))
enforce_identity-outcome now r b limits (some i) limiter f g = elim (Bool-cases (str_eq i "")) [
  | inl x ↦ (
    err (misconfigured rate no_identity),
    limiter,
    rw x refl,
    inl (refl, rate, no_identity, refl),
  )
  | inr x ↦
      let c = check now i (configure r b limiter) in
      let a = check_result-Answered r b c in
      (
        (check_result r b c).0,
        (check_result r b c).1,
        rw x refl,
        inr (record {
          requests_per_minute = r;
          burst_size = b;
          name = i;
          rate_in_force = f;
          burst_in_force = g;
          named = refl;
          not_empty = ground (arith, eq_iff i "");
          kept = a.1;
          answered = a.0;
        }),
      )
]

-- The gate of the rate, for the limits of any configuration and any identity: it always answers; and
-- either it refuses with a 503 and touches no bucket, or both limits are in force, the identity is
-- not empty, its bucket is charged under the configured budget, and the request passes exactly on
-- the bucket's grant, with a 429 and the bucket's own hint otherwise.
pub enforce_rate_limit-outcome :
    (now : ℕ) (section : Option Value) (identity : Option String) (limiter : RateLimiter)
    → (result : Result Refusal (Unit {0})) × (after : RateLimiter) × (enforce_rate_limit now
          (parse_limits section)
          identity
          limiter
        ≡ some (result, after))
      × (Misconfigured limiter after result
          ⊎ Asked now (parse_limits section) identity limiter after result)
unfolding enforce_rate_limit
enforce_rate_limit-outcome now section identity limiter =
    let limits = parse_limits section in
    elim (Option-cases (limits.invalid_reason rate)) [
      | inr (e, p) ↦ (
        err (misconfigured rate e),
        limiter,
        rw (enforce_rate_limit, p) refl,
        inl (refl, rate, e, refl),
      )
      | inl p ↦ elim (Option-cases (limits.invalid_reason Limit.burst)) [
        | inr (e, q) ↦ (
          err (misconfigured Limit.burst e),
          limiter,
          rw (enforce_rate_limit, p, q) refl,
          inl (refl, Limit.burst, e, refl),
        )
        | inl q ↦
            let (r, v) = parse-valued section rate p in
            let (b, w) = parse-valued section Limit.burst q in
            let (result, after, e, o) =
              enforce_identity-outcome now r b limits identity limiter (p, v) (q, w) in
            (result, after, rw (enforce_rate_limit, p, q, v, w) (ap some e), o)
      ]
    ]

full-hint :
    (limits : AdmissionLimits) (max_depth : Option ℕ) (length concurrent m : ℕ)
    → limits.invalid_reason queue_depth ≡ none
    → limits.queue_full_retry_after_s ≡ some m
    → retry_after (queue_depth_error limits max_depth length concurrent "queue_full") ≡ some m
unfolding queue_depth_error queue_full_retry_after
full-hint limits max_depth length concurrent m p e = rw (queue_full_retry_after, p) e

-- The gate of a submission, for the limits of any configuration: it refuses with a 503 and no hint, or
-- the depth and the retry hint are both in force, and then a submission that finds the queue full is
-- told to come back after exactly the hint.
pub check_queue_admission-outcome :
    (section : Option Value) (max_depth : Option ℕ) (length concurrent : ℕ)
    → ((e : Reason) × (check_queue_admission (parse_limits section)
          ≡ err (misconfigured queue_depth e)))
      ⊎ ((n m : ℕ) × InForce (parse_limits section) queue_depth n
          × InForce (parse_limits section) queue_retry m
          × (check_queue_admission (parse_limits section) ≡ ok tt)
          × (retry_after
                (queue_depth_error (parse_limits section) max_depth length concurrent "queue_full")
              ≡ some m))
unfolding check_queue_admission
check_queue_admission-outcome section max_depth length concurrent =
    let limits = parse_limits section in
    elim (Option-cases (limits.invalid_reason queue_depth)) [
      | inr (e, p) ↦ inl (e, rw (check_queue_admission, p) refl)
      | inl p ↦
          let (n, v) = parse-valued section queue_depth p in
          let (d, m, r) = (InForce-iff section queue_depth n).0 (p, v) in
          let hint = (InForce-iff section queue_retry m).1 r in
          inr (
            n,
            m,
            (p, v),
            hint,
            rw (check_queue_admission, p) refl,
            full-hint limits max_depth length concurrent m p hint.1,
          )
    ]
