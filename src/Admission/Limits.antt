-- ===== src/Admission/Limits.antt =====
-- app/proxy/admission.py: proofs about `_parse_limits`.
use guardian_llmprovider_gat.Prelude.{
  ℕ, ◌≤◌, String, ◌≡◌, ◌≢◌, ◌↔◌, ◌⊎◌, refl, sym, ap, subst, true, Option, none, some, List, [], ◌∷◌,
  arith, ok, err, Option-cases, inl, inr,
}
use guardian_llmprovider_gat.Value.{pos, Value, int, whole, mapping, get, is_mapping}
use guardian_llmprovider_gat.Admission.{
  Limit, body, queue_depth, queue_retry, rate, path, default, coerce_bound, resolve_from,
  resolve_one, Resolved, configured, shipped_default, value_of, error_of, parse_limits,
  with_retry_hint, take_limits, AdmissionLimits, limit_value, Reason,
}

-- A whole number of at least 1, written as an integer or as a float with no fraction.
pub data Bound : Value → ℕ → Type 0 where
  integer : (n : ℕ) → 1 ≤ n → Bound (int (pos n)) n
  float : (n : ℕ) → 1 ≤ n → Bound (whole (pos n)) n

-- What a section says of the limit at a path: the shipped default where a key is absent, and the
-- bound that stands there.
pub data Reads (shipped : ℕ) : Option Value → List String → ℕ → Type 0 where
  no_section : (p : List String) → Reads shipped none p shipped
  no_key :
      (fs : _) (k : String) (p : List String)
      → get k fs ≡ none
      → Reads shipped (some (mapping fs)) (k ∷ p) shipped
  under :
      (fs : _) (k : String) (p : List String) (v : Value) (n : ℕ)
      → get k fs ≡ some v
      → Reads shipped (some v) p n
      → Reads shipped (some (mapping fs)) (k ∷ p) n
  stands : (v : Value) (n : ℕ) → Bound v n → Reads shipped (some v) [] n

-- A resolution with this value and no error.
abbrev pub Gives : Resolved → ℕ → Type 0
Gives r n = (error_of r ≡ none) × (value_of r ≡ some n)

bounded-at_least :
    (m n : ℕ) → Gives (configured (coerce_bound (int (pos m)) 1)) n ↔ ((m ≡ n) × (1 ≤ n))
unfolding coerce_bound
bounded-at_least m n = ground arith

coerce-Bound : (v : Value) (n : ℕ) → Gives (configured (coerce_bound v 1)) n → Bound v n
unfolding coerce_bound
coerce-Bound (int (pos m)) n h =
    let (e, p) = (bounded-at_least m n).0 h in
    subst (λ k. Bound (int (pos k)) n) (sym e) (integer n p)
coerce-Bound (whole (pos m)) n h =
    let (e, p) = (bounded-at_least m n).0 h in
    subst (λ k. Bound (whole (pos k)) n) (sym e) (float n p)
coerce-Bound _ n h = absurd (ground arith)

Bound-coerce : (v : Value) (n : ℕ) → Bound v n → Gives (configured (coerce_bound v 1)) n
unfolding coerce_bound
Bound-coerce _ n (integer _ h) = (bounded-at_least n n).1 (refl, h)
Bound-coerce _ n (float _ h) = (bounded-at_least n n).1 (refl, h)

Gives-Reads :
    (shipped : ℕ) (v : Value) (p : List String) (n : ℕ)
    → Gives (resolve_from v p shipped) n
    → Reads shipped (some v) p n
unfolding resolve_from
Gives-Reads shipped v [] n h = stands v n (coerce-Bound v n h)
Gives-Reads shipped (mapping fs) (k ∷ p) n h = elim (Option-cases (get k fs)) [
  | inl e ↦
      let same : shipped ≡ n = ground arith in
      subst (λ k'. Reads shipped (some (mapping fs)) (k ∷ p) k') same (no_key fs k p e)
  | inr (v, e) ↦ under fs k p v n e (Gives-Reads shipped v p n (ground arith))
]
Gives-Reads shipped _ (k ∷ p) n h = absurd (ground arith)

Reads-Gives :
    (shipped : ℕ) (s : Option Value) (p : List String) (n : ℕ)
    → Reads shipped s p n
    → Gives (resolve_one s p shipped) n
unfolding resolve_one resolve_from
Reads-Gives shipped _ p _ (no_section _) = (refl, refl)
Reads-Gives shipped _ _ _ (no_key fs k p e) = ground (arith, e)
Reads-Gives shipped _ _ n (under fs k p v _ e r) =
    ground (arith, e, Reads-Gives shipped (some v) p n r)
Reads-Gives shipped _ _ n (stands v _ b) = Bound-coerce v n b

-- The limit is in force with a value.
abbrev pub InForce : AdmissionLimits → Limit → ℕ → Type 0
InForce limits l n = (limits.invalid_reason l ≡ none) × (limit_value limits l ≡ some n)

-- What is asked of the section for a limit: the queue depth needs its retry hint too.
abbrev pub Asks : Option Value → Limit → ℕ → Type 0
Asks s queue_depth n =
    Reads (default queue_depth) s (path queue_depth) n
    × (m : ℕ) × Reads (default queue_retry) s (path queue_retry) m
Asks s l n = Reads (default l) s (path l) n

take-InForce :
    (taken : Limit → Resolved) (l : Limit) (n : ℕ)
    → l ≢ queue_depth
    → InForce (take_limits taken) l n ↔ Gives (taken l) n
unfolding take_limits with_retry_hint
take-InForce taken queue_depth n h = absurd (h refl)
take-InForce taken body n h = (λ x. x, λ x. x)
take-InForce taken queue_retry n h = (λ x. x, λ x. x)
take-InForce taken rate n h = (λ x. x, λ x. x)
take-InForce taken Limit.burst n h = (λ x. x, λ x. x)

Gives-some : (r : Resolved) → error_of r ≡ none → (n : ℕ) × Gives r n
Gives-some (configured (ok n)) h = (n, (refl, refl))
Gives-some (configured (err e)) h = cc
Gives-some (shipped_default n) h = (n, (refl, refl))

take-depth :
    (taken : Limit → Resolved) (n : ℕ)
    → InForce (take_limits taken) queue_depth n
      ↔ (Gives (taken queue_depth) n × (m : ℕ) × Gives (taken queue_retry) m)
unfolding take_limits with_retry_hint
take-depth taken n = (
  λ h. elim (Option-cases (error_of (taken queue_depth))) [
    | inr (e, p) ↦ absurd (ground arith)
    | inl p ↦ elim (Option-cases (error_of (taken queue_retry))) [
      | inr (e, q) ↦ absurd (ground arith)
      | inl q ↦ let (m, g) = Gives-some (taken queue_retry) q in ((p, h.1), m, g)
    ]
  ],
  λ h. (ground (arith, h.0.0, h.2.0), h.0.1),
)

none-Reads : (d : ℕ) (p : List String) (n : ℕ) → Reads d none p n → d ≡ n
none-Reads d p _ (no_section _) = refl

resolve-Reads :
    (s : Option Value) (l : Limit) (n : ℕ)
    → Gives (resolve_one s (path l) (default l)) n ↔ Reads (default l) s (path l) n
unfolding resolve_one
resolve-Reads none l n = (
  λ h.
      let same : default l ≡ n = ground (arith, h.1) in
      subst (λ k. Reads (default l) none (path l) k) same (no_section (path l)),
  λ r. (refl, ap some (none-Reads (default l) (path l) n r)),
)
resolve-Reads (some v) l n =
    (Gives-Reads (default l) v (path l) n, Reads-Gives (default l) (some v) (path l) n)

plain-Asks :
    (s : Option Value) (l : Limit) (n : ℕ)
    → l ≢ queue_depth
    → (Reads (default l) s (path l) n → Asks s l n)
    → (Asks s l n → Reads (default l) s (path l) n)
    → InForce (take_limits (λ k. resolve_one s (path k) (default k))) l n ↔ Asks s l n
plain-Asks s l n ne f g =
    let t = take-InForce (λ k. resolve_one s (path k) (default k)) l n ne in
    let r = resolve-Reads s l n in (λ h. f (r.0 (t.0 h)), λ a. t.1 (r.1 (g a)))

taken-Asks :
    (s : Option Value) (l : Limit) (n : ℕ)
    → InForce (take_limits (λ k. resolve_one s (path k) (default k))) l n ↔ Asks s l n
taken-Asks s queue_depth n =
    let d = take-depth (λ k. resolve_one s (path k) (default k)) n in
    (
      λ h.
          let (g, m, r) = d.0 h in
          ((resolve-Reads s queue_depth n).0 g, m, (resolve-Reads s queue_retry m).0 r),
      λ a.
          d.1 ((resolve-Reads s queue_depth n).1 a.0, a.1, (resolve-Reads s queue_retry a.1).1 a.2),
    )
taken-Asks s body n = plain-Asks s body n (λ (e : body ≡ queue_depth). cc) (λ a. a) (λ a. a)
taken-Asks s queue_retry n =
    plain-Asks s queue_retry n (λ (e : queue_retry ≡ queue_depth). cc) (λ a. a) (λ a. a)
taken-Asks s rate n = plain-Asks s rate n (λ (e : rate ≡ queue_depth). cc) (λ a. a) (λ a. a)
taken-Asks s Limit.burst n =
    plain-Asks s Limit.burst n (λ (e : Limit.burst ≡ queue_depth). cc) (λ a. a) (λ a. a)

Reads-mapping :
    (d : ℕ) (v : Value) (k : String) (p : List String) (n : ℕ)
    → Reads d (some v) (k ∷ p) n
    → is_mapping v ≡ true
Reads-mapping d _ k p _ (no_key fs _ _ e) = refl
Reads-mapping d _ k p n (under fs _ _ v _ e r) = refl

Asks-mapping : (v : Value) (l : Limit) (n : ℕ) → Asks (some v) l n → is_mapping v ≡ true
Asks-mapping v body n a = Reads-mapping _ v _ _ n a
Asks-mapping v queue_depth n a = Reads-mapping _ v _ _ n a.0
Asks-mapping v queue_retry n a = Reads-mapping _ v _ _ n a
Asks-mapping v rate n a = Reads-mapping _ v _ _ n a
Asks-mapping v Limit.burst n a = Reads-mapping _ v _ _ n a

pub InForce-iff : (s : Option Value) (l : Limit) (n : ℕ) → InForce (parse_limits s) l n ↔ Asks s l n
unfolding parse_limits
InForce-iff none l n = taken-Asks none l n
InForce-iff (some (mapping fs)) l n = taken-Asks (some (mapping fs)) l n
InForce-iff (some _) l n =
    (λ h. absurd (ground arith), λ a. absurd (ground (arith, Asks-mapping _ l n a)))

-- A limit without a reason to refuse has a value.
valued :
    (taken : Limit → Resolved) (l : Limit)
    → (take_limits taken).invalid_reason l ≡ none
    → (n : ℕ) × (limit_value (take_limits taken) l ≡ some n)
unfolding take_limits with_retry_hint
valued taken body h = let (n, g) = Gives-some (taken body) h in (n, g.1)
valued taken queue_retry h = let (n, g) = Gives-some (taken queue_retry) h in (n, g.1)
valued taken rate h = let (n, g) = Gives-some (taken rate) h in (n, g.1)
valued taken Limit.burst h = let (n, g) = Gives-some (taken Limit.burst) h in (n, g.1)
valued taken queue_depth h = elim (Option-cases (error_of (taken queue_depth))) [
  | inr (e, p) ↦ absurd (ground arith)
  | inl p ↦ let (n, g) = Gives-some (taken queue_depth) p in (n, g.1)
]

pub parse-valued :
    (s : Option Value) (l : Limit)
    → (parse_limits s).invalid_reason l ≡ none
    → (n : ℕ) × (limit_value (parse_limits s) l ≡ some n)
unfolding parse_limits
parse-valued none l h = valued (λ k. resolve_one none (path k) (default k)) l h
parse-valued (some (mapping fs)) l h =
    valued (λ k. resolve_one (some (mapping fs)) (path k) (default k)) l h
parse-valued (some _) l h = absurd (ground arith)

-- A limit is in force with a value exactly if the configuration asks for it: with no `admission`
-- section or no key on the way, the shipped default; else a whole number of at least 1 that stands
-- there, written as an integer or, which a docstring denies, as a float. The queue depth needs a
-- retry hint that is in force as well. And each limit either is in force with some value or has a
-- reason to refuse.
pub parse_limits-InForce :
    (s : Option Value) (l : Limit) (n : ℕ)
    → (InForce (parse_limits s) l n ↔ Asks s l n)
      × (((m : ℕ) × InForce (parse_limits s) l m)
          ⊎ ((e : Reason) × ((parse_limits s).invalid_reason l ≡ some e)))
parse_limits-InForce s l n = (
  InForce-iff s l n,
  elim (Option-cases ((parse_limits s).invalid_reason l)) [
    | inl p ↦ let (m, v) = parse-valued s l p in inl (m, (p, v))
    | inr (e, p) ↦ inr (e, p)
  ],
)
