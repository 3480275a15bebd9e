-- ===== src/Prelude/Lists.antt =====
-- Lists measured by native numbers, and Python's list operations on texts.
use Prim.Native.Nat.{ℕ, suc, ◌+◌, ◌-◌, ◌<◌, ◌≤◌}
use Prim.Native.String.{String}
use mathlib.Core.Path.{◌≡◌, refl, ap}
use mathlib.Core.Bool.{Bool, true, false, ◌||◌}
use mathlib.Core.List.{List, [], ◌∷◌, ◌++◌}
use native.Mathlib.Omega.{arith}
use text.Mathlib.Text.{◌==◌}
use text.Mathlib.TextEquality.{eq_iff}
use guardian_llmprovider_gat.Prelude.Tests.{if◌then◌else◌}

module _ {ℓ} {A : Type ℓ} where
  abbrev pub length : List A → ℕ
  length [] = 0
  length (x ∷ xs) = suc (length xs)

  pub length-append : (xs ys : List A) → length (xs ++ ys) ≡ length xs + length ys
  length-append [] ys = omega arith
  length-append (x ∷ xs) ys = omega (arith, length-append xs ys)

  pub append_assoc : (xs ys zs : List A) → (xs ++ ys) ++ zs ≡ xs ++ (ys ++ zs)
  append_assoc [] ys zs = refl
  append_assoc (x ∷ xs) ys zs = ap (λ (r : List A). x ∷ r) (append_assoc xs ys zs)

  pub append_nil : (xs : List A) → xs ++ [] ≡ xs
  append_nil [] = refl
  append_nil (x ∷ xs) = ap (λ (r : List A). x ∷ r) (append_nil xs)

  abbrev pub any : (A → Bool) → List A → Bool
  any p [] = false
  any p (x ∷ xs) = p x || any p xs

  abbrev pub keep_if : (A → Bool) → List A → List A
  keep_if p [] = []
  keep_if p (x ∷ xs) = if p x then x ∷ keep_if p xs else keep_if p xs

  abbrev pub All {κ} : (A → Type κ) → List A → Type κ
  All P [] = Unit
  All P (x ∷ xs) = P x × All P xs

-- `k in xs`
abbrev pub contains : String → List String → Bool
contains k [] = false
contains k (x ∷ xs) = x == k || contains k xs

-- `xs.remove(k)`, and nothing where `k` is absent
unfoldable pub remove : String → List String → List String
remove k [] = []
remove k (x ∷ xs) = if x == k then xs else x ∷ remove k xs

abbrev pub count : String → List String → ℕ
count k [] = 0
count k (x ∷ xs) = (if x == k then 1 else 0) + count k xs

pub contains-count : (k : String) (xs : List String) → contains k xs ≡ true → 0 < count k xs
contains-count k [] h = ground arith
contains-count k (x ∷ xs) h = ground (arith, contains-count k xs)

pub count-contains : (k : String) (xs : List String) → contains k xs ≡ false → count k xs ≡ 0
count-contains k [] h = refl
count-contains k (x ∷ xs) h = ground (arith, count-contains k xs)

pub count-append : (k : String) (xs ys : List String) → count k (xs ++ ys) ≡ count k xs + count k ys
count-append k [] ys = omega arith
count-append k (x ∷ xs) ys = omega (arith, count-append k xs ys)

pub count-remove :
    (k j : String) (xs : List String)
    → count j (remove k xs) ≡ count j xs - (if k == j then 1 else 0)
unfolding remove
count-remove k j [] = ground arith
count-remove k j (x ∷ xs) = ground (arith, count-remove k j xs, eq_iff x k, eq_iff x j, eq_iff k j)

pub length-remove :
    (k : String) (xs : List String) → 0 < count k xs → length xs ≡ suc (length (remove k xs))
unfolding remove
length-remove k [] h = elim h [ ]
length-remove k (x ∷ xs) h = ground (arith, length-remove k xs)

pub remove-absent : (k : String) (xs : List String) → count k xs ≡ 0 → remove k xs ≡ xs
unfolding remove
remove-absent k [] h = refl
remove-absent k (x ∷ xs) h = ground (arith, remove-absent k xs)

pub length-remove-le : (k : String) (xs : List String) → length (remove k xs) ≤ length xs
unfolding remove
length-remove-le k [] = omega arith
length-remove-le k (x ∷ xs) = ground (arith, length-remove-le k xs)
