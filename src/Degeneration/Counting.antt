-- ===== src/Degeneration/Counting.antt =====
-- app/gateway/degeneration.py: proofs about the repeats that `_check` counts.
use guardian_llmprovider_gat.Prelude.{
  ℕ, zero, suc, ◌+◌, ◌-◌, ◌≤◌, ◌≡◌, refl, sym, ap, subst, ◌∙◌, Bool, true, false, [], ◌∷◌, ◌&&◌,
  leb→le, ◌++◌, arith, Bool-cases, inl, inr, leb, length, length-append, append_assoc, append_nil,
  same_codes,
}
use guardian_llmprovider_gat.Degeneration.{
  Text, take, drop, times, last_chars, slice, count_back, repeats_of,
}
use guardian_llmprovider_gat.Degeneration.Slices.{same_codes-eq, take-drop, take-add, length-drop}

pub and-left : (a b : Bool) → (a && b) ≡ true → a ≡ true
and-left a b h = ground arith

pub and-right : (a b : Bool) → (a && b) ≡ true → b ≡ true
and-right a b h = ground arith

-- The last k blocks of the window are the tail, and the rest is what stands before them.
abbrev pub Split : Text → Text → ℕ → ℕ → Type 0
Split window tail pos k = window ≡ take pos window ++ times k tail

step :
    (p : ℕ) (tail window : Text) (pos k : ℕ)
    → Split window tail pos k
    → p ≤ pos
    → same_codes (slice (pos - p) pos window) tail ≡ true
    → Split window tail (pos - p) (suc k)
unfolding slice
step p tail window pos k s h e =
    let front = take (pos - p) window in
    let block = take (pos - (pos - p)) (drop (pos - p) window) in
    let sum : pos ≡ (pos - p) + (pos - (pos - p)) = omega arith in
    let cut : take pos window ≡ front ++ block =
      ap (λ n. take n window) sum ∙ take-add (pos - p) (pos - (pos - p)) window in
    let same : block ≡ tail = same_codes-eq block tail e in
    s
    ∙ ap (λ (t : Text). t ++ times k tail) (cut ∙ ap (λ (t : Text). front ++ t) same)
    ∙ append_assoc front tail (times k tail)

-- Where the count stops, no further block stands.
abbrev pub Stopped : (p : ℕ) → (tail window : Text) → (rest : ℕ) → Type 0
Stopped p tail window rest = (leb p rest && same_codes (slice (rest - p) rest window) tail) ≡ false

-- The count ends with a split of the window, and not before it has to.
count_back-Split :
    (fuel p : ℕ) (tail window : Text) (pos k : ℕ)
    → 1 ≤ p
    → pos ≤ fuel
    → Split window tail pos k
    → (rest : ℕ) × (rest ≤ pos)
      × Split window tail rest (count_back fuel p tail window pos k)
      × (k ≤ count_back fuel p tail window pos k)
      × Stopped p tail window rest
unfolding count_back
count_back-Split zero p tail window pos k o m s = (pos, omega arith, s, omega arith, ground arith)
count_back-Split (suc fuel) p tail window pos k o m s =
    elim (Bool-cases (leb p pos && same_codes (slice (pos - p) pos window) tail)) [
      | inr h ↦ (pos, omega arith, rw h s, rw h (omega arith), h)
      | inl h ↦
          let le =
            leb→le p pos (and-left (leb p pos) (same_codes (slice (pos - p) pos window) tail) h) in
          let (rest, less, split, more, stopped) =
            count_back-Split fuel p tail window (pos - p) (suc k) o (omega arith) (
              step p tail window pos k s le
                (and-right (leb p pos) (same_codes (slice (pos - p) pos window) tail) h)) in
          (rest, omega arith, rw h split, rw h (omega arith), stopped)
    ]

same_codes_refl : (t : Text) → same_codes t t ≡ true
unfolding same_codes
same_codes_refl [] = refl
same_codes_refl (c ∷ cs) = ground (arith, same_codes_refl cs)

drop-front : (xs ys : Text) → drop (length xs) (xs ++ ys) ≡ ys
drop-front [] ys = refl
drop-front (x ∷ xs) ys = drop-front xs ys

length-take : (n : ℕ) (xs : Text) → n ≤ length xs → length (take n xs) ≡ n
length-take zero xs h = refl
length-take (suc n) [] h = absurd (omega arith)
length-take (suc n) (x ∷ xs) h = omega (arith, length-take n xs (omega arith))

-- What stands before the blocks does not end in one more of them.
pub Stopped-maximal :
    (p : ℕ) (tail window before : Text) (rest : ℕ)
    → length tail ≡ p
    → rest ≤ length window
    → Stopped p tail window rest
    → take rest window ≡ before ++ tail
    → ⊥
unfolding slice
Stopped-maximal p tail window before rest size l s e =
    let total : length before + p ≡ rest = omega (
      arith,
      size,
      length-append before tail,
      length-take rest window l,
      ap (λ (t : Text). length t) e,
    ) in
    let block = take (rest - (rest - p)) (drop (rest - p) window) in
    let front = take (rest - p) window in
    let sum : rest ≡ (rest - p) + (rest - (rest - p)) = omega arith in
    let cut : front ++ block ≡ before ++ tail =
      sym (ap (λ n. take n window) sum ∙ take-add (rest - p) (rest - (rest - p)) window) ∙ e in
    let same_size : length front ≡ length before =
      omega (arith, length-take (rest - p) window (omega arith)) in
    let same : block ≡ tail =
      sym (drop-front front block)
      ∙ ap (drop (length front)) cut
      ∙ ap (λ n. drop n (before ++ tail)) same_size
      ∙ drop-front before tail in
    let again : same_codes block tail ≡ true =
      subst (λ t. same_codes t tail ≡ true) (sym same) (same_codes_refl tail) in
    ground (arith, again)

pub repeats_of-Split :
    (q : ℕ) (window : Text)
    → 1 ≤ q
    → q ≤ length window
    → (rest : ℕ) × Split window (last_chars q window) rest (repeats_of q window)
      × (length (last_chars q window) ≡ q)
      × (1 ≤ repeats_of q window)
      × (rest ≤ length window)
      × Stopped q (last_chars q window) window rest
unfolding repeats_of last_chars
repeats_of-Split zero window h l = absurd (omega arith)
repeats_of-Split (suc q) window h l =
    let pos = length window - suc q in
    let tail = drop pos window in
    let start : Split window tail pos 1 =
      sym (take-drop pos window)
      ∙ ap (λ (t : Text). take pos window ++ t) (sym (append_nil tail)) in
    let (rest, le, split, more, stopped) =
      count_back-Split (length window) (suc q) tail window pos 1 h (omega arith) start in
    (rest, split, omega (arith, length-drop pos window), more, omega arith, stopped)
