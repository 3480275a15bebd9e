-- ===== src/Degeneration.antt =====
-- app/gateway/degeneration.py: the detector of an output that repeats itself. A text is the list of its
-- characters' codes. The settings are natural numbers here; reading them is left out.
use guardian_llmprovider_gat.Prelude.{
  ℕ, zero, suc, ◌+◌, ◌-◌, ◌*◌, ◌/◌, ◌%◌, min, Bool, true, false, not, ◌&&◌, ◌||◌, Option, none,
  some, List, [], ◌∷◌, ◌++◌, ltb, leb, ◌==◌, if◌then◌else◌, length, Result, ok, err, same_codes,
}
mod Slices
mod Counting
mod Loops
mod Stream
mod Tests

abbrev pub Text : Type 0
Text = List ℕ

pub record DegenerationConfig : Type 0 where
  pub enabled : Bool
  pub min_period : ℕ
  pub max_period : ℕ
  pub min_repeats : ℕ
  pub min_repeat_bytes : ℕ
  pub max_window_chars : ℕ

pub record DegenerationVerdict : Type 0 where
  pub period : ℕ
  pub repeats : ℕ
  pub repeat_bytes : ℕ

abbrev pub cut_from_end : DegenerationVerdict → ℕ
cut_from_end v = v.repeat_bytes - v.period

abbrev pub take : ℕ → Text → Text
take zero xs = []
take (suc n) [] = []
take (suc n) (x ∷ xs) = x ∷ take n xs

abbrev pub drop : ℕ → Text → Text
drop zero xs = xs
drop (suc n) [] = []
drop (suc n) (x ∷ xs) = drop n xs

-- text[-n:], which is the whole text for n = 0
unfoldable pub last_chars : ℕ → Text → Text
last_chars zero xs = xs
last_chars (suc n) xs = drop (length xs - suc n) xs

-- text[start:end] of two places in the text
unfoldable pub slice : (start end : ℕ) → Text → Text
slice start end xs = take (end - start) (drop start xs)

-- text * n
abbrev pub times : ℕ → Text → Text
times zero xs = []
times (suc n) xs = xs ++ times n xs

-- while pos >= p and window[pos - p : pos] == tail: k += 1; pos -= p
unfoldable pub count_back : (fuel p : ℕ) → (tail window : Text) → (pos k : ℕ) → ℕ
unfolding slice
count_back zero p tail window pos k = k
count_back (suc fuel) p tail window pos k =
    let rest = count_back fuel p tail window (pos - p) (suc k) in
    if leb p pos && same_codes (slice (pos - p) pos window) tail then rest else k

-- The repeats of the last p characters at the end of the window: each takes one character at least.
unfoldable pub repeats_of : ℕ → Text → ℕ
unfolding count_back last_chars
repeats_of p window =
    count_back (length window) p (last_chars p window) window (length window - p) 1

-- for d in range(d, p): the first divisor whose block makes up the tail, or p
unfoldable pub fundamental : (fuel d p : ℕ) → Text → ℕ
unfolding last_chars
fundamental zero d p window = p
fundamental (suc fuel) d p window =
    let rest = fundamental fuel (suc d) p window in
    if p % d == 0 && same_codes (last_chars p window) (times (p / d) (last_chars d window))
    then d
    else rest

pub data Failure : Type 0 where
  zero_division : Failure

unfoldable pub verdict_at : DegenerationConfig → ℕ → Text → Option DegenerationVerdict
unfolding repeats_of
verdict_at config q window =
    let k = repeats_of q window in
    if ltb q config.min_period
    then none
    else if leb config.min_repeats k && leb config.min_repeat_bytes (q * k)
    then some (record { period = q; repeats = k; repeat_bytes = q * k })
    else none

-- Whether the period p is looked into: the tail repeats, often and long enough.
unfoldable pub is_loop_at : DegenerationConfig → ℕ → Text → Bool
unfolding repeats_of slice last_chars
is_loop_at config p window =
    same_codes (slice (length window - 2 * p) (length window - p) window) (last_chars p window)
    && leb config.min_repeats (repeats_of p window)
    && leb config.min_repeat_bytes (p * repeats_of p window)

-- for p in range(p, max_p + 1), on fuel for the periods left
unfoldable pub search_periods :
    DegenerationConfig → (fuel p : ℕ) → Text → Option DegenerationVerdict
unfolding is_loop_at fundamental verdict_at
search_periods config zero p window = none
search_periods config (suc fuel) p window =
    let rest = search_periods config fuel (suc p) window in
    if is_loop_at config p window
    then verdict_at config (fundamental (p - 1) 1 p window) window
    else rest

-- `//` by no repeats raises.
unfoldable pub check_window :
    DegenerationConfig → Text → Result Failure (Option DegenerationVerdict)
unfolding search_periods
check_window config window =
    let max_p = min config.max_period (length window / config.min_repeats) in
    if ltb (length window) config.min_repeat_bytes
    then ok none
    else if config.min_repeats == 0
    then err zero_division
    else ok (search_periods config (suc max_p - config.min_period) config.min_period window)

abbrev pub is_empty : Text → Bool
is_empty [] = true
is_empty (x ∷ xs) = false

-- The new window and the verdict.
unfoldable pub feed :
    DegenerationConfig → Text → Text → Result Failure (Option DegenerationVerdict) × Text
unfolding check_window last_chars
feed config delta window =
    let window' = last_chars config.max_window_chars (window ++ delta) in
    if not config.enabled || is_empty delta
    then (ok none, window)
    else (check_window config window', window')

unfoldable pub run_full : DegenerationConfig → Text → Result Failure (Option DegenerationVerdict)
unfolding check_window last_chars
run_full config t =
    if not config.enabled || is_empty t
    then ok none
    else check_window config (last_chars config.max_window_chars t)
