-- ===== src/Degeneration/Loops.antt =====
-- app/gateway/degeneration.py: proofs about `_check` and `cut_from_end`.
use guardian_llmprovider_gat.Prelude.{
  ℕ, zero, suc, ◌+◌, ◌-◌, ◌*◌, ◌/◌, ◌%◌, ◌≤◌, min, ◌≡◌, ◌⊎◌, refl, sym, ap, subst, ◌∙◌, ◌&&◌,
  leb→le, some, ◌++◌, arith, Bool-cases, inl, inr, ltb, leb, ◌==◌, length, length-append,
  append_assoc, same_codes, ok,
}
use native.Mathlib.Nat.{div-le_self, suc-mul, mul_comm}
use guardian_llmprovider_gat.Degeneration.{
  Text, DegenerationConfig, DegenerationVerdict, cut_from_end, take, times, last_chars, repeats_of,
  fundamental, verdict_at, is_loop_at, search_periods, check_window,
}
use guardian_llmprovider_gat.Degeneration.Slices.{take-append}
use guardian_llmprovider_gat.Degeneration.Counting.{
  and-left, and-right, Stopped-maximal, repeats_of-Split,
}

-- The window ends in a block of the period, so many times as the verdict says.
pub record Loop (config : DegenerationConfig) (window : Text) (v : DegenerationVerdict)
    : Type 0 where
  pub front : Text
  pub block : Text
  pub made_of : window ≡ front ++ times v.repeats block
  pub its_period : length block ≡ v.period
  pub maximal : (before : Text) → front ≡ before ++ block → ⊥
  pub long_period : config.min_period ≤ v.period
  pub short_period : v.period ≤ config.max_period
  pub often : config.min_repeats ≤ v.repeats
  pub long_enough : config.min_repeat_bytes ≤ v.repeat_bytes
  pub bytes : v.repeat_bytes ≡ v.period * v.repeats
  pub at_least_one : 1 ≤ v.repeats

verdict_at-Loop :
    (config : DegenerationConfig) (q : ℕ) (window : Text) (v : DegenerationVerdict)
    → 1 ≤ config.min_period
    → q ≤ length window
    → q ≤ config.max_period
    → verdict_at config q window ≡ some v
    → Loop config window v
unfolding verdict_at
verdict_at-Loop config q window v m l b e =
    let k = repeats_of q window in
    elim (Bool-cases (ltb q config.min_period)) [
      | inl x ↦ absurd (ground arith)
      | inr x ↦
          elim (Bool-cases (leb config.min_repeats k && leb config.min_repeat_bytes (q * k))) [
            | inr y ↦ absurd (ground arith)
            | inl y ↦
                let (rest, split, size, one, within, stopped) =
                  repeats_of-Split q window (ground arith) l in
                let same : record { period = q; repeats = k; repeat_bytes = q * k } ≡ v =
                  ground arith in
                subst (Loop config window) same (record {
                  front = take rest window;
                  block = last_chars q window;
                  made_of = split;
                  its_period = size;
                  maximal = λ before x.
                      Stopped-maximal q (last_chars q window) window before rest size within stopped
                        x;
                  long_period = ground arith;
                  short_period = b;
                  often = leb→le _ _ (and-left _ _ y);
                  long_enough = leb→le _ _ (and-right _ _ y);
                  bytes = refl;
                  at_least_one = one;
                })
          ]
    ]

fundamental-le : (fuel d p : ℕ) (window : Text) → d + fuel ≤ p → fundamental fuel d p window ≤ p
unfolding fundamental
fundamental-le zero d p window h = omega arith
fundamental-le (suc fuel) d p window h =
    elim (Bool-cases
      (p % d == 0 && same_codes (last_chars p window) (times (p / d) (last_chars d window)))) [
        | inl x ↦ rw x (omega arith)
        | inr x ↦ rw x (fundamental-le fuel (suc d) p window (omega arith))
      ]

search_periods-Loop :
    (config : DegenerationConfig) (fuel p : ℕ) (window : Text) (v : DegenerationVerdict)
    → 1 ≤ config.min_period
    → 1 ≤ p
    → p + fuel ≤ suc (min config.max_period (length window))
    → search_periods config fuel p window ≡ some v
    → Loop config window v
unfolding search_periods
search_periods-Loop config zero p window v m o l e = absurd (ground arith)
search_periods-Loop config (suc fuel) p window v m o l e =
    let le = fundamental-le (p - 1) 1 p window (omega arith) in
    elim (Bool-cases (is_loop_at config p window)) [
      | inl x ↦
          verdict_at-Loop config (fundamental (p - 1) 1 p window) window v m (omega arith)
            (omega arith) (ground arith)
      | inr x ↦
          search_periods-Loop config fuel (suc p) window v m (omega arith) (omega arith)
            (ground arith)
    ]

length-times : (n : ℕ) (block : Text) → length (times n block) ≡ n * length block
length-times zero block = omega arith
length-times (suc n) block =
    omega
      (arith, length-append block (times n block), length-times n block, suc-mul n (length block))

cut_place :
    (window front block : Text) (n : ℕ)
    → window ≡ front ++ times (suc n) block
    → length window - (length block * suc n - length block) ≡ length (front ++ block)
cut_place window front block n e = omega (
  arith,
  ap (λ (t : Text). length t) e,
  length-append front (block ++ times n block),
  length-append front block,
  length-append block (times n block),
  length-times n block,
  mul_comm (length block) (suc n),
  suc-mul n (length block),
)

cut-blocks :
    (window front block : Text) (n : ℕ)
    → window ≡ front ++ times (suc n) block
    → take (length window - (length block * suc n - length block)) window ≡ front ++ block
cut-blocks window front block n e =
    ap (λ k. take k window) (cut_place window front block n e)
    ∙ ap (take (length (front ++ block))) (e ∙ sym (append_assoc front block (times n block)))
    ∙ take-append (front ++ block) (times n block)

search-range :
    (config : DegenerationConfig) (fuel : ℕ) (window : Text) (v : DegenerationVerdict)
    → 1 ≤ config.min_period
    → (fuel ≡ 0) ⊎ (config.min_period + fuel ≤ suc (min config.max_period (length window)))
    → search_periods config fuel config.min_period window ≡ some v
    → Loop config window v
unfolding search_periods
search-range config zero window v m r e = absurd (ground arith)
search-range config (suc fuel) window v m (inl r) e = absurd (omega arith)
search-range config (suc fuel) window v m (inr r) e =
    search_periods-Loop config (suc fuel) config.min_period window v m m r e

check_window-search :
    (config : DegenerationConfig) (window : Text) (v : DegenerationVerdict)
    → check_window config window ≡ ok (some v)
    → search_periods config
        (suc (min config.max_period (length window / config.min_repeats)) - config.min_period)
        config.min_period
        window
      ≡ some v
unfolding check_window
check_window-search config window v e =
    elim (Bool-cases (ltb (length window) config.min_repeat_bytes)) [
      | inl x ↦ absurd (ground arith)
      | inr x ↦ elim (Bool-cases (config.min_repeats == 0)) [
        | inl y ↦ absurd (ground arith)
        | inr y ↦ ground arith
      ]
    ]

searched-Loop :
    (config : DegenerationConfig) (window : Text) (v : DegenerationVerdict)
    → 1 ≤ config.min_period
    → check_window config window ≡ ok (some v)
    → Loop config window v
searched-Loop config window v m e =
    let max_p = min config.max_period (length window / config.min_repeats) in
    let small : max_p ≤ min config.max_period (length window) =
      omega (arith, div-le_self (length window) config.min_repeats) in
    search-range config (suc max_p - config.min_period) window v m
      (elim (Bool-cases (leb config.min_period max_p)) [
        | inl z ↦ inr (omega (arith, leb→le config.min_period max_p z))
        | inr z ↦ inl (ground arith)
      ])
      (check_window-search config window v e)

cut_from_end-Loop :
    (config : DegenerationConfig) (window : Text) (v : DegenerationVerdict)
    (l : Loop config window v)
    → take (length window - cut_from_end v) window ≡ l.front ++ l.block
cut_from_end-Loop config window v l = go v.repeats l.made_of l.at_least_one l.bytes
  where
    go :
        (n : ℕ)
        → window ≡ l.front ++ times n l.block
        → 1 ≤ n
        → v.repeat_bytes ≡ v.period * n
        → take (length window - cut_from_end v) window ≡ l.front ++ l.block
    go zero e h b = absurd (omega arith)
    go (suc n) e h b =
        let c : cut_from_end v ≡ length l.block * suc n - length l.block =
          ap (λ x. x - v.period) b ∙ ap (λ x. x * suc n - x) (sym l.its_period) in
        ap (λ x. take (length window - x) window) c ∙ cut-blocks window l.front l.block n e

-- If the least period is at least 1, a verdict on a window is true: the window is some text and then a
-- block of the verdict's period, repeated as often as the verdict says, and that text does not end in
-- one more block; the period is within its two settings, repeats and length are not below theirs; and to
-- cut what the verdict says from the end leaves exactly one block.
pub check_window-Loop :
    (config : DegenerationConfig) (window : Text) (v : DegenerationVerdict)
    → 1 ≤ config.min_period
    → check_window config window ≡ ok (some v)
    → (l : Loop config window v) × (take (length window - cut_from_end v) window
        ≡ l.front ++ l.block)
check_window-Loop config window v m e =
    let l = searched-Loop config window v m e in (l, cut_from_end-Loop config window v l)
