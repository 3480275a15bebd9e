-- ===== src/Failover/Breaker.antt =====
-- app/proxy/failover.py: proofs about `is_tripped` after reports on candidates.
use guardian_llmprovider_gat.Prelude.{
  ℕ, suc, ◌+◌, ◌≤◌, ◌≡◌, refl, sym, subst, Bool, true, false, ◌&&◌, Option, none, some, List, [],
  ◌∷◌, arith, eq_iff, Bool-cases, inl, inr, ltb, leb, if◌then◌else◌, le→leb, length,
}
use guardian_llmprovider_gat.Failover.{
  Key, same_key, HealthTracker, new_tracker, record_success, record_failure, record_rate_limited,
  clear_rate_limit, is_tripped, set_key, pop_key, or_zero,
}

-- What the gateway tells the tracker of a candidate.
pub data Report : Type 0 where
  success failure limited cleared : Report

abbrev pub reported : ℕ → Key → Report → HealthTracker → HealthTracker
reported now k success t = record_success k t
reported now k failure t = record_failure now k t
reported now k limited t = record_rate_limited now k t
reported now k cleared t = clear_rate_limit k t

abbrev pub Reports : Type 0
Reports = List (ℕ × (Key × Report))

abbrev pub after_reports : Reports → HealthTracker → HealthTracker
after_reports [] t = t
after_reports ((now, (k, r)) ∷ rs) t = after_reports rs (reported now k r t)

abbrev pub is_failure : Report → Bool
is_failure failure = true
is_failure _ = false

abbrev pub is_success : Report → Bool
is_success success = true
is_success _ = false

-- The times of the failures of `k` since its last success, the latest first.
abbrev pub streak_from : Key → List ℕ → Reports → List ℕ
streak_from k times [] = times
streak_from k times ((now, (j, r)) ∷ rs) =
    streak_from k
      (if same_key j k
        then if is_success r then [] else if is_failure r then now ∷ times else times
        else times)
      rs

abbrev pub streak : Key → Reports → List ℕ
streak k rs = streak_from k [] rs

abbrev pub latest : List ℕ → ℕ
latest [] = 0
latest (now ∷ times) = now

-- The tracker has the failures of this streak on record, and the trip that they make.
record Holds (threshold cooldown : ℕ) (k : Key) (times : List ℕ) (t : HealthTracker) : Type 0 where
  its_threshold : t.failure_threshold ≡ threshold
  its_cooldown : t.cooldown ≡ cooldown
  counted : or_zero (t.consecutive_failures k) ≡ length times
  until :
      t.tripped_until k
      ≡ (if leb threshold (length times) then some (latest times + cooldown) else none)

-- The streak after one report.
abbrev next : Key → List ℕ → ℕ → Key → Report → List ℕ
next k times now j r =
    if same_key j k
    then if is_success r then [] else if is_failure r then now ∷ times else times
    else times

pub same_key_iff : (j k : Key) → same_key j k ≡ true → j ≡ k
unfolding same_key
same_key_iff (a, b) (c, d) h =
    let x = (eq_iff a c).0 (ground arith) in let y = (eq_iff b d).0 (ground arith) in cc

pub set_key-at :
    {V : Type 0} (j k : Key) (v : V) (d : Key → Option V)
    → set_key j v d k ≡ (if same_key j k then some v else d k)
unfolding set_key
set_key-at j k v d = refl

pub pop_key-at :
    {V : Type 0} (j k : Key) (d : Key → Option V)
    → pop_key j d k ≡ (if same_key j k then none else d k)
unfolding pop_key
pop_key-at j k d = refl

same_key_refl : (k : Key) → same_key k k ≡ true
unfolding same_key
same_key_refl (a, b) = ground (arith, eq_iff a a, eq_iff b b)

module _ (threshold cooldown : ℕ) (k : Key) where
  own_failure :
      (now : ℕ) (times : List ℕ) (t : HealthTracker)
      → Holds threshold cooldown k times t
      → Holds threshold cooldown k (now ∷ times) (record_failure now k t)
  unfolding record_failure
  own_failure now times t h =
      let at = same_key_refl k in
      let count = suc (or_zero (t.consecutive_failures k)) in
      record {
        its_threshold = h.its_threshold;
        its_cooldown = h.its_cooldown;
        counted = ground (arith, set_key-at k k count t.consecutive_failures, at, h.counted);
        until = ground (
          arith,
          set_key-at k k (now + t.cooldown) t.tripped_until,
          at,
          h.counted,
          h.until,
          h.its_threshold,
          h.its_cooldown,
        );
      }

  other_failure :
      (now : ℕ) (j : Key) (times : List ℕ) (t : HealthTracker)
      → same_key j k ≡ false
      → Holds threshold cooldown k times t
      → Holds threshold cooldown k times (record_failure now j t)
  unfolding record_failure
  other_failure now j times t e h =
      let count = suc (or_zero (t.consecutive_failures j)) in
      record {
        its_threshold = h.its_threshold;
        its_cooldown = h.its_cooldown;
        counted = ground (arith, set_key-at j k count t.consecutive_failures, e, h.counted);
        until = ground (arith, set_key-at j k (now + t.cooldown) t.tripped_until, e, h.until);
      }

  success-Holds :
      (j : Key) (times : List ℕ) (t : HealthTracker)
      → 1 ≤ threshold
      → Holds threshold cooldown k times t
      → Holds threshold cooldown k (if same_key j k then [] else times) (record_success j t)
  unfolding record_success
  success-Holds j times t p h =
      let c = pop_key-at j k t.consecutive_failures in
      let u = pop_key-at j k t.tripped_until in
      elim (Bool-cases (same_key j k)) [
        | inl e ↦ rw e (record {
          its_threshold = h.its_threshold;
          its_cooldown = h.its_cooldown;
          counted = ground (arith, c, e);
          until = ground (arith, u, e);
        })
        | inr e ↦ rw e (record {
          its_threshold = h.its_threshold;
          its_cooldown = h.its_cooldown;
          counted = ground (arith, c, e, h.counted);
          until = ground (arith, u, e, h.until);
        })
      ]

  failure-Holds :
      (now : ℕ) (j : Key) (times : List ℕ) (t : HealthTracker)
      → Holds threshold cooldown k times t
      → Holds threshold cooldown k
          (if same_key j k then now ∷ times else times)
          (record_failure now j t)
  failure-Holds now j times t h = elim (Bool-cases (same_key j k)) [
    | inl e ↦ rw e (
        subst (λ i. Holds threshold cooldown k (now ∷ times) (record_failure now i t))
          (sym (same_key_iff j k e)) (own_failure now times t h))
    | inr e ↦ rw e (other_failure now j times t e h)
  ]

  keep-Holds :
      (times : List ℕ) (t : HealthTracker) (limits : Key → Option ℕ)
      → Holds threshold cooldown k times t
      → Holds threshold cooldown k times (record t { rate_limited_until = limits })
  keep-Holds times t limits h = record {
    its_threshold = h.its_threshold;
    its_cooldown = h.its_cooldown;
    counted = h.counted;
    until = h.until;
  }

  reported-Holds :
      (now : ℕ) (j : Key) (r : Report) (times : List ℕ) (t : HealthTracker)
      → 1 ≤ threshold
      → Holds threshold cooldown k times t
      → Holds threshold cooldown k (next k times now j r) (reported now j r t)
  unfolding record_rate_limited clear_rate_limit
  reported-Holds now j success times t p h = success-Holds j times t p h
  reported-Holds now j failure times t p h = failure-Holds now j times t h
  reported-Holds now j limited times t p h = elim (Bool-cases (same_key j k)) [
    | inl e ↦ rw e (keep-Holds times t _ h)
    | inr e ↦ rw e (keep-Holds times t _ h)
  ]
  reported-Holds now j cleared times t p h = elim (Bool-cases (same_key j k)) [
    | inl e ↦ rw e (keep-Holds times t _ h)
    | inr e ↦ rw e (keep-Holds times t _ h)
  ]

  after-Holds :
      (rs : Reports) (times : List ℕ) (t : HealthTracker)
      → 1 ≤ threshold
      → Holds threshold cooldown k times t
      → Holds threshold cooldown k (streak_from k times rs) (after_reports rs t)
  after-Holds [] times t p h = h
  after-Holds ((now, (j, r)) ∷ rs) times t p h =
      after-Holds rs (next k times now j r) (reported now j r t) p
        (reported-Holds now j r times t p h)

  tripped-Holds :
      (now : ℕ) (times : List ℕ) (t : HealthTracker)
      → Holds threshold cooldown k times t
      → (is_tripped now k t).0 ≡ (leb threshold (length times) && ltb now (latest times + cooldown))
  unfolding is_tripped
  tripped-Holds now times t h = elim (Bool-cases (leb threshold (length times))) [
    | inl e ↦
        let u : t.tripped_until k ≡ some (latest times + cooldown) = ground (arith, h.until) in
        rw (is_tripped, u, e) (ground arith)
    | inr e ↦
        let u : t.tripped_until k ≡ none = ground (arith, h.until) in rw (is_tripped, u, e) refl
  ]

-- The breaker of a candidate, after any reports about it and others, in any order and at any times,
-- if the threshold is at least 1 and nobody asked in between: it is open exactly if the candidate
-- failed at least as often as the threshold since its last success, and the cooldown has not run
-- out since the latest of these failures.
pub is_tripped-streak :
    (threshold cooldown rate_limit_cooldown now : ℕ) (k : Key) (rs : Reports)
    → 1 ≤ threshold
    → (is_tripped now k (after_reports rs (new_tracker threshold cooldown rate_limit_cooldown))).0
      ≡ (leb threshold (length (streak k rs)) && ltb now (latest (streak k rs) + cooldown))
unfolding new_tracker
is_tripped-streak threshold cooldown rate_limit_cooldown now k rs p =
    tripped-Holds threshold cooldown k now (streak k rs) _ (
      after-Holds threshold cooldown k rs [] (new_tracker threshold cooldown rate_limit_cooldown) p
        (record {
          its_threshold = refl;
          its_cooldown = refl;
          counted = refl;
          until = ground arith;
        }))

-- A trip that has run out is forgotten by the question that finds it so, with the failures that led
-- to it: if the threshold is at least 1, what is reported from then on opens the breaker exactly
-- as for a candidate that never failed.
pub is_tripped-half_open :
    (now later until : ℕ) (k : Key) (t : HealthTracker) (rs : Reports)
    → 1 ≤ t.failure_threshold
    → t.tripped_until k ≡ some until
    → until ≤ now
    → ((is_tripped now k t).0 ≡ false)
      × ((is_tripped later k (after_reports rs (is_tripped now k t).1)).0 ≡ (
          leb t.failure_threshold (length (streak k rs))
          && ltb later (latest (streak k rs) + t.cooldown)))
unfolding is_tripped
is_tripped-half_open now later until k t rs h p r =
    let e : leb until now ≡ true = le→leb until now r in
    (
      rw (is_tripped, p, e) refl,
      tripped-Holds t.failure_threshold t.cooldown k later (streak k rs) _ (
          after-Holds t.failure_threshold t.cooldown k rs [] _ h (
            rw (is_tripped, p, e)
              (record {
                its_threshold = refl;
                its_cooldown = refl;
                counted = ground (arith, pop_key-at k k t.consecutive_failures, same_key_refl k);
                until = ground (arith, pop_key-at k k t.tripped_until, same_key_refl k);
              }))),
    )
