-- ===== src/Prelude/Slices.antt =====
-- Python's `xs[-n:]`, for a number above 0, and what it keeps.
use Prim.Native.Nat.{ℕ, zero, suc, ◌+◌, ◌-◌, ◌≤◌}
use mathlib.Core.Path.{◌≡◌, refl, sym, ap, ◌∙◌}
use mathlib.Core.List.{List, [], ◌∷◌, ◌++◌}
use native.Mathlib.Omega.{arith}
use mathlib.Core.Bool.{Bool, true}
use guardian_llmprovider_gat.Prelude.Lists.{length, length-append, any}

module _ {ℓ} {A : Type ℓ} where
  abbrev pub drop : ℕ → List A → List A
  drop zero xs = xs
  drop (suc n) [] = []
  drop (suc n) (x ∷ xs) = drop n xs

  unfoldable pub last_n : ℕ → List A → List A
  last_n n xs = drop (length xs - n) xs

  length-drop : (n : ℕ) (xs : List A) → length (drop n xs) ≡ length xs - n
  length-drop zero xs = omega arith
  length-drop (suc n) [] = omega arith
  length-drop (suc n) (x ∷ xs) = omega (arith, length-drop n xs)

  drop-nil : (n : ℕ) → drop n [] ≡ []
  drop-nil zero = refl
  drop-nil (suc n) = refl

  drop-drop : (a b : ℕ) (xs : List A) → drop b (drop a xs) ≡ drop (a + b) xs
  drop-drop zero b xs = let e : b ≡ zero + b = omega arith in ap (λ n. drop n xs) e
  drop-drop (suc a) b [] = drop-nil b ∙ sym (drop-nil (suc a + b))
  drop-drop (suc a) b (x ∷ xs) =
      let e : suc (a + b) ≡ suc a + b = omega arith in
      drop-drop a b xs ∙ ap (λ n. drop n (x ∷ xs)) e

  drop-append : (n : ℕ) (xs ys : List A) → n ≤ length xs → drop n (xs ++ ys) ≡ drop n xs ++ ys
  drop-append zero xs ys h = refl
  drop-append (suc n) [] ys h = absurd (omega arith)
  drop-append (suc n) (x ∷ xs) ys h = drop-append n xs ys (omega arith)

  pub length-last_n : (n : ℕ) (xs : List A) → length (last_n n xs) ≤ n
  unfolding last_n
  length-last_n n xs = omega (arith, length-drop (length xs - n) xs)

  pub last_n-nil : (n : ℕ) → last_n n [] ≡ []
  unfolding last_n
  last_n-nil n = drop-nil (0 - n)

  -- To keep the last ones before more come changes nothing for those that are kept after.
  pub last_n-append : (n : ℕ) (xs ys : List A) → last_n n (last_n n xs ++ ys) ≡ last_n n (xs ++ ys)
  unfolding last_n
  last_n-append n xs ys =
      let k = length xs - n in
      let e : drop k xs ++ ys ≡ drop k (xs ++ ys) = sym (drop-append k xs ys (omega arith)) in
      let j = length (drop k xs ++ ys) - n in
      let total : k + j ≡ length (xs ++ ys) - n =
        omega (arith, length-append (drop k xs) ys, length-append xs ys, length-drop k xs) in
      ap (drop j) e ∙ drop-drop k j (xs ++ ys) ∙ ap (λ m. drop m (xs ++ ys)) total

  -- A list that is short enough is kept whole.
  pub last_n-short : (n : ℕ) (xs : List A) → length xs ≤ n → last_n n xs ≡ xs
  unfolding last_n
  last_n-short n xs h = ap (λ m. drop m xs) (short (length xs) n h)
    where
      short : (a b : ℕ) → a ≤ b → a - b ≡ 0
      short a b le = omega arith

  any-drop : (p : A → Bool) (n : ℕ) (xs : List A) → any p (drop n xs) ≡ true → any p xs ≡ true
  any-drop p zero xs h = h
  any-drop p (suc n) [] h = h
  any-drop p (suc n) (x ∷ xs) h = ground (arith, any-drop p n xs h)

  pub any-last_n :
      (p : A → Bool) (n : ℕ) (xs : List A) → any p (last_n n xs) ≡ true → any p xs ≡ true
  unfolding last_n
  any-last_n p n xs h = any-drop p (length xs - n) xs h
