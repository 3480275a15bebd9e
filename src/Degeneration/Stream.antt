-- ===== src/Degeneration/Stream.antt =====
-- app/gateway/degeneration.py: proofs about `feed` against `run_full`.
use guardian_llmprovider_gat.Prelude.{
  ℕ, zero, suc, ◌-◌, ◌≡◌, refl, sym, ap, ◌∙◌, true, false, List, [], ◌∷◌, ◌++◌, arith, Bool-cases,
  inl, inr, append_assoc, append_nil,
}
use guardian_llmprovider_gat.Degeneration.{
  Text, DegenerationConfig, last_chars, check_window, feed, run_full, is_empty,
}
use guardian_llmprovider_gat.Degeneration.Slices.{drop-nil, last_chars-last_chars}

-- The window after the deltas of a stream.
abbrev pub fed : DegenerationConfig → List Text → Text → Text
fed config [] window = window
fed config (delta ∷ deltas) window = fed config deltas (feed config delta window).1

abbrev pub whole_of : List Text → Text
whole_of [] = []
whole_of (delta ∷ deltas) = delta ++ whole_of deltas

fed-window :
    (config : DegenerationConfig) (deltas : List Text) (window : Text)
    → config.enabled ≡ true
    → fed config deltas (last_chars config.max_window_chars window)
      ≡ last_chars config.max_window_chars (window ++ whole_of deltas)
unfolding feed
fed-window config [] window h = ap (last_chars config.max_window_chars) (sym (append_nil window))
fed-window config ([] ∷ deltas) window h = rw h (fed-window config deltas window h)
fed-window config ((x ∷ delta) ∷ deltas) window h =
    let cap = config.max_window_chars in
    rw (h, last_chars-last_chars cap window (x ∷ delta))
      (fed-window config deltas (window ++ x ∷ delta) h
        ∙ ap (last_chars cap) (append_assoc window (x ∷ delta) (whole_of deltas)))

empty_window : (n : ℕ) → last_chars n [] ≡ []
unfolding last_chars
empty_window zero = refl
empty_window (suc n) = drop-nil (0 - suc n)

not_empty-append : (xs ys : Text) → is_empty ys ≡ false → is_empty (xs ++ ys) ≡ false
not_empty-append [] ys h = h
not_empty-append (x ∷ xs) ys h = refl

feed_enabled :
    (config : DegenerationConfig) (delta window : Text)
    → config.enabled ≡ true
    → is_empty delta ≡ false
    → (feed config delta window).0
      ≡ check_window config (last_chars config.max_window_chars (window ++ delta))
unfolding feed
feed_enabled config delta window x h = ground arith

run_full_enabled :
    (config : DegenerationConfig) (t : Text)
    → config.enabled ≡ true
    → is_empty t ≡ false
    → run_full config t ≡ check_window config (last_chars config.max_window_chars t)
unfolding run_full
run_full_enabled config t x h = ground arith

-- A stream is judged as its whole text is: the verdict on a delta that is not empty is that of
-- `run_full` on all the text so far, however it was cut into deltas before.
pub feed-run_full :
    (config : DegenerationConfig) (deltas : List Text) (delta : Text)
    → is_empty delta ≡ false
    → (feed config delta (fed config deltas [])).0 ≡ run_full config (whole_of deltas ++ delta)
unfolding feed run_full
feed-run_full config deltas delta h = elim (Bool-cases config.enabled) [
  | inr x ↦ rw x refl
  | inl x ↦
      let cap = config.max_window_chars in
      let all = whole_of deltas in
      let window : fed config deltas [] ≡ last_chars cap all =
        ap (fed config deltas) (sym (empty_window cap)) ∙ fed-window config deltas [] x in
      let some_text = not_empty-append all delta h in
      feed_enabled config delta (fed config deltas []) x h
      ∙ ap (λ (w : Text). check_window config (last_chars cap (w ++ delta))) window
      ∙ ap (check_window config) (last_chars-last_chars cap all delta)
      ∙ sym (run_full_enabled config (all ++ delta) x some_text)
]
