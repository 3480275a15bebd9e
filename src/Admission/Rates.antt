-- ===== src/Admission/Rates.antt =====
-- app/proxy/admission.py: lemmas on the level of a bucket under `check`, `_prune` and time.
use guardian_llmprovider_gat.Prelude.{
  ℕ, ◌+◌, ◌-◌, ◌*◌, ◌≤◌, min, String, ◌≡◌, refl, ap, subst, ◌∙◌, leb→le, Bool, ◌&&◌, Option, none,
  some, arith, eq_iff, str_eq, if◌then◌else◌, Bool-cases, Option-cases, inl, inr, ltb, length, leb,
}
use guardian_llmprovider_gat.Dict.{lookup, insert, lookup-insert, lookup-retain, filtered}
use guardian_llmprovider_gat.Admission.RateLimiter.{
  Bucket, RateLimiter, check, charge, charged, prune, prune_crowded, keeps, refilled, refill_rate,
  full_bucket, with_bucket, one_token, prune_threshold,
}
use native.Mathlib.Nat.{add-mul, mul-le-mul_right}

-- The tokens of an optional bucket at a time: a fresh one is full.
abbrev pub level_of : ℕ → RateLimiter → Option Bucket → ℕ
level_of now limiter none = limiter.burst * one_token
level_of now limiter (some b) =
    min (limiter.burst * one_token) (b.tokens + (now - b.updated_at) * refill_rate limiter)

abbrev pub level : ℕ → String → RateLimiter → ℕ
level now identity limiter = level_of now limiter (lookup identity limiter.buckets)

-- A bucket that is pruned is full.
kept_level :
    (now : ℕ) (k : String) (limiter : RateLimiter) (o : Option Bucket)
    → level_of now limiter (filtered (keeps now limiter) k o) ≡ level_of now limiter o
unfolding keeps
kept_level now k limiter none = refl
kept_level now k limiter (some b) = elim (Bool-cases (keeps now limiter k b)) [
  | inl h ↦ rw h refl
  | inr h ↦ rw h (ground arith)
]

prune_crowded-level :
    (now : ℕ) (k : String) (limiter : RateLimiter)
    → level now k (prune_crowded now limiter) ≡ level now k limiter
unfolding prune_crowded prune
prune_crowded-level now k limiter =
    elim (Bool-cases (ltb prune_threshold (length limiter.buckets))) [
      | inl h ↦ rw h (
          rw (lookup-retain (keeps now limiter) k limiter.buckets)
            (kept_level now k limiter (lookup k limiter.buckets)))
      | inr h ↦ rw h refl
    ]

later_gap : (u now later : ℕ) → now ≤ later → later - u ≤ (now - u) + (later - now)
later_gap u now later h = omega arith

-- Time refills no faster than the rate.
pub level-later :
    (now later : ℕ) (k : String) (limiter : RateLimiter)
    → now ≤ later
    → level later k limiter ≤ level now k limiter + (later - now) * refill_rate limiter
level-later now later k limiter h = elim (Option-cases (lookup k limiter.buckets)) [
  | inl p ↦ rw p (omega arith)
  | inr (b, p) ↦ rw p (
      omega (
        arith,
        mul-le-mul_right (refill_rate limiter) (later_gap b.updated_at now later h),
        add-mul (now - b.updated_at) (later - now) (refill_rate limiter),
      ))
]

fresh-level :
    (now : ℕ) (b : Bucket) (limiter : RateLimiter)
    → b.updated_at ≡ now
    → b.tokens ≤ limiter.burst * one_token
    → level_of now limiter (some b) ≡ b.tokens
fresh-level now b limiter u t = let z : now - b.updated_at ≡ 0 = omega arith in rw z (omega arith)

-- What a check takes from the bucket of `k`.
abbrev pub spent : String → String → Bool → ℕ
spent identity k allowed = if str_eq identity k && allowed then one_token else 0

charge-level :
    (now : ℕ) (identity k : String) (b : Bucket) (limiter : RateLimiter)
    → lookup identity limiter.buckets ≡ some b
    → b.updated_at ≡ now
    → b.tokens ≤ limiter.burst * one_token
    → level now k (charge identity b limiter).1 + spent identity k (charge identity b limiter).0.0
      ≡ level now k limiter
unfolding charge charged
charge-level now identity k b limiter p u t = elim (Bool-cases (leb one_token b.tokens)) [
  | inl h ↦ rw h (elim (Bool-cases (str_eq identity k)) [
    | inl e ↦
        (let b' = record b { tokens = b.tokens - one_token } in
          let after : lookup k (insert identity b' limiter.buckets) ≡ some b' =
            ground (arith, lookup-insert identity k b' limiter.buckets) in
          let before : lookup k limiter.buckets ≡ some b =
            subst (λ j. lookup j limiter.buckets ≡ some b) ((eq_iff identity k).0 e) p in
          rw (after, before, e)
            (omega (
              arith,
              leb→le one_token b.tokens h,
              fresh-level now b limiter u t,
              fresh-level now b' limiter u (omega arith),
            )))
    | inr e ↦ ground (
      arith,
      lookup-insert identity k (record b { tokens = b.tokens - one_token }) limiter.buckets,
    )
  ])
  | inr h ↦ rw h ground arith
]

u_gap : (now : ℕ) (b : Bucket) → b.updated_at ≡ now → now - b.updated_at ≡ 0
u_gap now b u = omega arith

crowded-lookup :
    (now : ℕ) (identity : String) (b : Bucket) (limiter : RateLimiter)
    → lookup identity limiter.buckets ≡ some b
    → b.updated_at ≡ now
    → lookup identity (prune_crowded now limiter).buckets ≡ some b
unfolding prune_crowded prune keeps
crowded-lookup now identity b limiter p u = ground (
  arith,
  lookup-retain (keeps now limiter) identity limiter.buckets,
  ap (λ x. x * refill_rate limiter) (u_gap now b u),
)

crowded_fields :
    (now : ℕ) (limiter : RateLimiter)
    → ((prune_crowded now limiter).burst ≡ limiter.burst)
      × ((prune_crowded now limiter).requests_per_minute ≡ limiter.requests_per_minute)
unfolding prune_crowded prune
crowded_fields now limiter = ground arith

pub check_fields :
    (now : ℕ) (identity : String) (limiter : RateLimiter)
    → ((check now identity limiter).1.burst ≡ limiter.burst)
      × ((check now identity limiter).1.requests_per_minute ≡ limiter.requests_per_minute)
unfolding check charge charged
check_fields now identity limiter = elim (Option-cases (lookup identity limiter.buckets)) [
  | inl p ↦
      rw (check, p)
        (ground
          (arith, crowded_fields now (with_bucket identity (full_bucket now limiter) limiter)))
  | inr (b, p) ↦ rw (check, p) (ground arith)
]

pub level-le :
    (now : ℕ) (k : String) (limiter : RateLimiter) → level now k limiter ≤ limiter.burst * one_token
level-le now k limiter = elim (Option-cases (lookup k limiter.buckets)) [
  | inl p ↦ rw p (omega arith)
  | inr (b, p) ↦ rw p (omega arith)
]

-- A bucket that is written with the level that it stands for changes no level.
bucket-level :
    (now : ℕ) (identity k : String) (b : Bucket) (limiter : RateLimiter)
    → b.updated_at ≡ now
    → b.tokens ≡ level now identity limiter
    → level now k (with_bucket identity b limiter) ≡ level now k limiter
bucket-level now identity k b limiter u t =
    let f = fresh-level now b limiter u (omega (arith, level-le now identity limiter)) in
    elim (Bool-cases (str_eq identity k)) [
      | inl e ↦
          let after : lookup k (insert identity b limiter.buckets) ≡ some b =
            ground (arith, lookup-insert identity k b limiter.buckets) in
          rw after (
            subst (λ j. level_of now limiter (some b) ≡ level now j limiter)
              ((eq_iff identity k).0 e) (f ∙ t))
      | inr e ↦
          let after : lookup k (insert identity b limiter.buckets) ≡ lookup k limiter.buckets =
            ground (arith, lookup-insert identity k b limiter.buckets) in
          rw after refl
    ]

pub refilled-now :
    (now : ℕ) (limiter : RateLimiter) (b : Bucket) → (refilled now limiter b).updated_at ≡ now
unfolding refilled
refilled-now now limiter b = refl

pub refilled-tokens :
    (now : ℕ) (limiter : RateLimiter) (b : Bucket)
    → (refilled now limiter b).tokens ≡ level_of now limiter (some b)
unfolding refilled
refilled-tokens now limiter b = refl

refilled-le :
    (now : ℕ) (limiter : RateLimiter) (b : Bucket)
    → (refilled now limiter b).tokens ≤ limiter.burst * one_token
unfolding refilled
refilled-le now limiter b = omega arith

-- A check takes the token it grants from the identity's bucket, and nothing from any other's.
pub check-level :
    (now : ℕ) (identity k : String) (limiter : RateLimiter)
    → level now k (check now identity limiter).1 + spent identity k (check now identity limiter).0.0
      ≡ level now k limiter
unfolding check
check-level now identity k limiter = elim (Option-cases (lookup identity limiter.buckets)) [
  | inl p ↦
      let b = full_bucket now limiter in
      let l = with_bucket identity b limiter in
      let held : lookup identity l.buckets ≡ some b =
        ground
          (arith, lookup-insert identity identity b limiter.buckets, eq_iff identity identity) in
      rw (check, p)
        (charge-level now identity k b (prune_crowded now l)
            (crowded-lookup now identity b l held refl) refl (ground (arith, crowded_fields now l))
          ∙ prune_crowded-level now k l
          ∙ bucket-level now identity k b limiter refl (rw p refl))
  | inr (a, p) ↦
      let b = refilled now limiter a in
      let l = with_bucket identity b limiter in
      let held : lookup identity l.buckets ≡ some b =
        ground
          (arith, lookup-insert identity identity b limiter.buckets, eq_iff identity identity) in
      rw (check, p)
        (charge-level now identity k b l held (refilled-now now limiter a)
            (refilled-le now limiter a)
          ∙ bucket-level now identity k b limiter (refilled-now now limiter a)
              (rw p (refilled-tokens now limiter a)))
]
