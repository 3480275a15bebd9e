-- ===== src/UpstreamUrl/Decoding.antt =====
-- app/upstream_url.py: proofs about the paths that are let through, however often they are decoded.
use guardian_llmprovider_gat.Prelude.{
  ℕ, zero, suc, ◌<◌, ◌≡◌, ◌≢◌, ◌↔◌, inl, inr, refl, sym, ap, ◌∙◌, subst, Bool, true, false, not,
  ◌||◌, [], ◌∷◌, if◌then◌else◌, any, ok, err, ◌>>◌, guard, same_codes, Bool-cases, arith, ==_iff,
  >>_iff, guard-not_iff, raise_iff,
}
use guardian_llmprovider_gat.UpstreamUrl.{
  Text, is_forbidden, is_control, is_absolute, is_dots, segments, check_characters, check_forbidden,
  forbidden_reason, absolute_path, dot_segment, control_character, check_segments, has_percent,
  check_rounds, check_component,
}

-- A relative path with no character that ends it and no dot segment.
abbrev pub IsPlain : Text → Type 0
IsPlain t =
    (any is_forbidden t ≡ false) × (is_absolute t ≡ false) × (any is_dots (segments t) ≡ false)

same_codes_iff : (xs ys : Text) → (same_codes xs ys ≡ true) ↔ (xs ≡ ys)
unfolding same_codes
same_codes_iff [] [] = (λ h. refl, λ h. refl)
same_codes_iff [] (y ∷ ys) = (λ h. cc, λ h. cc)
same_codes_iff (x ∷ xs) [] = (λ h. cc, λ h. cc)
same_codes_iff (x ∷ xs) (y ∷ ys) =
    let (to, from) = same_codes_iff xs ys in
    (
      λ h. ground (arith, to, ==_iff x y),
      λ h. let e : x ≡ y = cc in let es : xs ≡ ys = cc in ground (arith, from es, ==_iff x y, e),
    )

or_false : (a b : Bool) → (a || b ≡ false) ↔ ((a ≡ false) × (b ≡ false))
or_false a b = (λ h. ground arith, λ h. ground arith)

check_forbidden_iff : (t : Text) → (check_forbidden t ≡ ok tt) ↔ (any is_forbidden t ≡ false)
unfolding check_forbidden
check_forbidden_iff [] = (λ h. refl, λ h. refl)
check_forbidden_iff (c ∷ cs) =
    let (to, from) = raise_iff (is_forbidden c) (forbidden_reason c) (check_forbidden cs) tt in
    let (rest, back) = check_forbidden_iff cs in
    let (split, join) = or_false (is_forbidden c) (any is_forbidden cs) in
    (λ h. join ((to h).0, rest (to h).1), λ h. from ((split h).0, back (split h).1))

check_segments_iff : (t : Text) → (check_segments t ≡ ok tt) ↔ IsPlain t
unfolding check_segments
check_segments_iff t = (
  λ h.
      let (ab, c) =
        (>>_iff (check_forbidden t >> guard (not (is_absolute t)) absolute_path)
            (guard (not (any is_dots (segments t))) dot_segment) tt).0
          h in
      let (a, b) =
        (>>_iff (check_forbidden t) (guard (not (is_absolute t)) absolute_path) tt).0 ab in
      (
        (check_forbidden_iff t).0 a,
        (guard-not_iff (is_absolute t) absolute_path).0 b,
        (guard-not_iff (any is_dots (segments t)) dot_segment).0 c,
      ),
  λ (a, b, c). rw ((check_forbidden_iff t).1 a, b, c) refl,
)

check_characters_iff :
    (t : Text)
    → (check_characters t ≡ ok tt) ↔ ((any is_forbidden t ≡ false) × (any is_control t ≡ false))
unfolding check_characters
check_characters_iff [] = (λ h. (refl, refl), λ h. refl)
check_characters_iff (c ∷ cs) =
    let (to, from) = check_characters_iff cs in
    let first =
      raise_iff (is_forbidden c) (forbidden_reason c)
        (if is_control c then err control_character else check_characters cs) tt in
    let second = raise_iff (is_control c) control_character (check_characters cs) tt in
    (
      λ h.
          let (a, b) = first.0 h in
          let (d, e) = second.0 b in
          let (p, q) = to e in
          (
            (or_false (is_forbidden c) (any is_forbidden cs)).1 (a, p),
            (or_false (is_control c) (any is_control cs)).1 (d, q),
          ),
      λ (h, k).
          let (a, p) = (or_false (is_forbidden c) (any is_forbidden cs)).0 h in
          let (d, q) = (or_false (is_control c) (any is_control cs)).0 k in
          first.1 (a, second.1 (d, from (p, q))),
    )

module _ (unquote : Text → Text) where
  -- The path after so many rounds of decoding.
  abbrev pub decoded : ℕ → Text → Text
  decoded zero t = t
  decoded (suc n) t = decoded n (unquote t)

  -- Decoding comes to rest in fewer than `n` rounds.
  abbrev pub Settles : ℕ → Text → Type 0
  Settles n t = (k : ℕ) × (k < n) × (unquote (decoded k t) ≡ decoded k t)

  abbrev pub AlwaysPlain : Text → Type 0
  AlwaysPlain t = (i : ℕ) → IsPlain (decoded i t)

  always : {t : Text} → IsPlain t → AlwaysPlain (unquote t) → AlwaysPlain t
  always p all zero = p
  always p all (suc i) = all i

  decoded-fixed : (t : Text) → unquote t ≡ t → (i : ℕ) → decoded i t ≡ t
  decoded-fixed t e zero = refl
  decoded-fixed t e (suc i) = ap (decoded i) e ∙ decoded-fixed t e i

  module _ (literal : (t : Text) → has_percent t ≡ false → unquote t ≡ t) where
    rest_test : Text → Bool
    rest_test t = not (has_percent t) || same_codes (unquote t) t

    rest_iff : (t : Text) → (rest_test t ≡ true) ↔ (unquote t ≡ t)
    unfolding rest_test
    rest_iff t = (
      λ h. elim (Bool-cases (has_percent t)) [
        | inl e ↦ (same_codes_iff (unquote t) t).0 (ground (arith, h, e))
        | inr e ↦ literal t e
      ],
      λ h. let same = (same_codes_iff (unquote t) t).1 h in ground (arith, same),
    )

    unfoldable Bounded : ℕ → Text → Type 0
    Bounded n t = Settles n t × AlwaysPlain t

    -- One round, if the rounds after it are understood.
    round_iff :
        (n : ℕ) (t : Text)
        → ((check_rounds unquote n (unquote t) ≡ ok tt) ↔ Bounded n (unquote t))
        → IsPlain t
        → (b : Bool) → rest_test t ≡ b
        → ((if b then ok tt else check_rounds unquote n (unquote t)) ≡ ok tt) ↔ Bounded (suc n) t
    unfolding Bounded
    round_iff n t rest p true e =
        let fixed = (rest_iff t).0 e in
        (
          λ h. ((0, omega arith, fixed), λ i. subst IsPlain (sym (decoded-fixed t fixed i)) p),
          λ h. refl,
        )
    round_iff n t (to, from) p false e =
        (λ h. later (to h), λ ((k, lt, fixed), all). earlier k lt fixed all)
      where
        later : Bounded n (unquote t) → Bounded (suc n) t
        later ((k, lt, fixed), all) = ((suc k, omega arith, fixed), always p all)

        earlier :
            (k : ℕ)
            → k < suc n
            → unquote (decoded k t) ≡ decoded k t
            → AlwaysPlain t
            → check_rounds unquote n (unquote t) ≡ ok tt
        earlier zero lt fixed all = let same = (rest_iff t).1 fixed in absurd (cc)
        earlier (suc k) lt fixed all = from ((k, omega arith, fixed), λ i. all (suc i))

    check_rounds_iff : (n : ℕ) (t : Text) → (check_rounds unquote n t ≡ ok tt) ↔ Bounded n t
    unfolding check_rounds Bounded rest_test
    check_rounds_iff zero t = (λ h. cc, λ ((k, lt, e), p). absurd (omega arith))
    check_rounds_iff (suc n) t =
        let rest = check_rounds_iff n (unquote t) in
        let tail = if rest_test t then ok tt else check_rounds unquote n (unquote t) in
        let (both, join) = >>_iff (check_segments t) tail tt in
        let (plain, checked) = check_segments_iff t in
        (
          λ h. (round_iff n t rest (plain (both h).0) (rest_test t) refl).0 (both h).1,
          λ h. join (checked (h.1 0), (round_iff n t rest (h.1 0) (rest_test t) refl).1 h),
        )

-- A path that a request gives is let through exactly if it is not empty and has no control
-- character, percent-decoding it comes to rest in fewer than 4 rounds, and however often it is
-- decoded, it is a relative path with no backslash, `?` or `#` and no dot segment. It is only used
-- that decoding changes nothing in a text with no `%`.
pub check_component_iff :
    (unquote : Text → Text) (path : Text)
    → ((t : Text) → has_percent t ≡ false → unquote t ≡ t)
    → (check_component unquote path ≡ ok tt) ↔ (
        (path ≢ [])
        × (any is_control path ≡ false)
        × Settles unquote 4 path
        × AlwaysPlain unquote path)
unfolding check_component Bounded
check_component_iff unquote [] literal = (λ h. cc, λ h. absurd (h.0 refl))
check_component_iff unquote (c ∷ cs) literal =
    let path : Text = c ∷ cs in
    let (relative, from_relative) = guard-not_iff (is_absolute path) absolute_path in
    let (clean, from_clean) = check_characters_iff path in
    let (rounds, from_rounds) = check_rounds_iff unquote literal 4 path in
    let first = guard (not (is_absolute path)) absolute_path in
    let outer = >>_iff (first >> check_characters path) (check_rounds unquote 4 path) tt in
    let inner = >>_iff first (check_characters path) tt in
    (
      λ h.
          let (start, last) = outer.0 h in
          let (a, b) = inner.0 start in
          let (settles, all) = rounds last in (λ e. cc, (clean b).1, settles, all),
      λ (n, control, settles, all).
          let (forbidden, absolute, dots) = all 0 in
          outer.1 (
            inner.1 (from_relative absolute, from_clean (forbidden, control)),
            from_rounds (settles, all),
          ),
    )
