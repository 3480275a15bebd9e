-- ===== src/Degeneration/Slices.antt =====
-- app/gateway/degeneration.py: lemmas on the slices of a text.
use guardian_llmprovider_gat.Prelude.{
  ℕ, zero, suc, ◌+◌, ◌-◌, ◌≤◌, ◌≡◌, refl, sym, ap, ◌∙◌, true, [], ◌∷◌, ◌++◌, arith, length,
  length-append, same_codes, ==_iff,
}
use guardian_llmprovider_gat.Degeneration.{Text, take, drop, last_chars}

pub same_codes-eq : (xs ys : Text) → same_codes xs ys ≡ true → xs ≡ ys
unfolding same_codes
same_codes-eq [] [] h = refl
same_codes-eq [] (y ∷ ys) h = absurd (ground arith)
same_codes-eq (x ∷ xs) [] h = absurd (ground arith)
same_codes-eq (x ∷ xs) (y ∷ ys) h = ground (arith, ==_iff x y, same_codes-eq xs ys)

pub take-drop : (n : ℕ) (xs : Text) → take n xs ++ drop n xs ≡ xs
take-drop zero xs = refl
take-drop (suc n) [] = refl
take-drop (suc n) (x ∷ xs) = ap (λ (r : Text). x ∷ r) (take-drop n xs)

take-nil : (n : ℕ) → take n [] ≡ []
take-nil zero = refl
take-nil (suc n) = refl

pub drop-nil : (n : ℕ) → drop n [] ≡ []
drop-nil zero = refl
drop-nil (suc n) = refl

zero_plus : (b : ℕ) → 0 + b ≡ b
zero_plus b = omega arith

suc_plus : (a b : ℕ) → suc a + b ≡ suc (a + b)
suc_plus a b = omega arith

pub take-add : (a b : ℕ) (xs : Text) → take (a + b) xs ≡ take a xs ++ take b (drop a xs)
take-add zero b xs = ap (λ n. take n xs) (zero_plus b)
take-add (suc a) b [] = take-nil (suc a + b) ∙ sym (take-nil b)
take-add (suc a) b (x ∷ xs) =
    ap (λ n. take n (x ∷ xs)) (suc_plus a b) ∙ ap (λ (r : Text). x ∷ r) (take-add a b xs)

pub length-drop : (n : ℕ) (xs : Text) → length (drop n xs) ≡ length xs - n
length-drop zero xs = omega arith
length-drop (suc n) [] = omega arith
length-drop (suc n) (x ∷ xs) = omega (arith, length-drop n xs)

pub drop-add : (a b : ℕ) (xs : Text) → drop b (drop a xs) ≡ drop (a + b) xs
drop-add zero b xs = ap (λ n. drop n xs) (sym (zero_plus b))
drop-add (suc a) b [] = drop-nil b ∙ sym (drop-nil (suc a + b))
drop-add (suc a) b (x ∷ xs) = drop-add a b xs ∙ ap (λ n. drop n (x ∷ xs)) (sym (suc_plus a b))

pub drop-append : (n : ℕ) (xs ys : Text) → n ≤ length xs → drop n (xs ++ ys) ≡ drop n xs ++ ys
drop-append zero xs ys h = refl
drop-append (suc n) [] ys h = absurd (omega arith)
drop-append (suc n) (x ∷ xs) ys h = drop-append n xs ys (omega arith)

pub take-append : (xs ys : Text) → take (length xs) (xs ++ ys) ≡ xs
take-append [] ys = refl
take-append (x ∷ xs) ys = ap (λ (r : Text). x ∷ r) (take-append xs ys)

-- To keep the last characters before more come changes nothing for those that are kept after.
pub last_chars-last_chars :
    (n : ℕ) (xs ys : Text) → last_chars n (last_chars n xs ++ ys) ≡ last_chars n (xs ++ ys)
unfolding last_chars
last_chars-last_chars zero xs ys = refl
last_chars-last_chars (suc n) xs ys =
    let k = length xs - suc n in
    let e : drop k xs ++ ys ≡ drop k (xs ++ ys) = sym (drop-append k xs ys (omega arith)) in
    let j = length (drop k xs ++ ys) - suc n in
    let total : k + j ≡ length (xs ++ ys) - suc n =
      omega (arith, length-append (drop k xs) ys, length-append xs ys, length-drop k xs) in
    ap (drop j) e ∙ drop-add k j (xs ++ ys) ∙ ap (λ m. drop m (xs ++ ys)) total
