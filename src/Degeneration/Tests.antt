-- ===== src/Degeneration/Tests.antt =====
-- The detector on a concrete stream.
use guardian_llmprovider_gat.Prelude.{
  ◌-◌, ◌≡◌, refl, true, some, none, List, [], ◌∷◌, ◌++◌, arith, length, ok, same_codes,
}
use guardian_llmprovider_gat.Degeneration.{
  Text, DegenerationConfig, DegenerationVerdict, cut_from_end, take, check_window, feed, run_full,
}
use guardian_llmprovider_gat.Degeneration.Stream.{fed, whole_of, feed-run_full}
use guardian_llmprovider_gat.Degeneration.Loops.{Loop, check_window-Loop}

-- Settings that are small enough for a test.
abbrev config : DegenerationConfig
config = record {
  enabled = true;
  min_period = 2;
  max_period = 300;
  min_repeats = 3;
  min_repeat_bytes = 6;
  max_window_chars = 9;
}

abbrev looping : Text
looping = 7 ∷ 1 ∷ 2 ∷ 1 ∷ 2 ∷ 1 ∷ 2 ∷ []

abbrev verdict : DegenerationVerdict
verdict = record { period = 2; repeats = 3; repeat_bytes = 6 }

found : check_window config looping ≡ ok (some verdict)
unfolding check_window same_codes
found = refl

-- A run of one character is an echo, and no loop.
echo : check_window config (1 ∷ 1 ∷ 1 ∷ 1 ∷ 1 ∷ 1 ∷ []) ≡ ok none
unfolding check_window same_codes
echo = refl

check_window-Loop_example :
    (l : Loop config looping verdict) × (take (length looping - cut_from_end verdict) looping
      ≡ l.front ++ l.block)
check_window-Loop_example = check_window-Loop config looping verdict (omega arith) found

abbrev deltas : List Text
deltas = (7 ∷ 1 ∷ []) ∷ (2 ∷ 1 ∷ 2 ∷ []) ∷ []

feed-run_full_example :
    (feed config (1 ∷ 2 ∷ []) (fed config deltas [])).0
    ≡ run_full config (whole_of deltas ++ 1 ∷ 2 ∷ [])
feed-run_full_example = feed-run_full config deltas (1 ∷ 2 ∷ []) refl
