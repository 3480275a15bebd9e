-- ===== src/Failover/Tests.antt =====
-- The theorems about failover at concrete reports and candidates.
use guardian_llmprovider_gat.Prelude.{
  ℕ, ◌+◌, ◌≡◌, refl, Bool, true, false, ◌&&◌, [], ◌∷◌, ◌++◌, List, arith, ltb, leb, length, keep_if,
  some,
}
use guardian_llmprovider_gat.Failover.{
  Key, HealthTracker, FailoverCandidate, new_tracker, is_tripped, order_candidates, record_success,
  record_failure, record_rate_limited, same_key, set_key, pop_key,
}
use guardian_llmprovider_gat.Failover.Breaker.{
  Reports, failure, after_reports, streak, latest, is_tripped-streak,
}
use guardian_llmprovider_gat.Failover.Candidates.{
  is_healthy, is_busy, is_out, order_candidates-sorted,
}

abbrev one : Key
one = ("p", "one")

abbrev two : Key
two = ("p", "two")

-- Three failures of the first, with one of the second in between.
abbrev three_failures : Reports
three_failures =
    (0, (one, failure)) ∷ (1, (two, failure)) ∷ (2, (one, failure)) ∷ (3, (one, failure)) ∷ []

abbrev tracker : HealthTracker
tracker = new_tracker 3 60000 60000

-- The names that a run of the model computes with.
abbrev open_at : ℕ → Key → Bool
unfolding is_tripped record_success record_failure record_rate_limited new_tracker same_key set_key
    pop_key
open_at now k = (is_tripped now k (after_reports three_failures tracker)).0

runs : (open_at 100 one ≡ true) × (open_at 100 two ≡ false) × (open_at 60003 one ≡ false)
unfolding open_at
runs = (refl, refl, refl)

is_tripped-streak_example : (is_tripped 100 one (after_reports three_failures tracker)).0 ≡ (
    leb 3 (length (streak one three_failures))
    && ltb 100 (latest (streak one three_failures) + 60000))
is_tripped-streak_example = is_tripped-streak 3 60000 60000 100 one three_failures (omega arith)

abbrev tripped : HealthTracker
tripped = after_reports three_failures tracker

tripped_until_60003 : tripped.tripped_until one ≡ some 60003
unfolding open_at
tripped_until_60003 = refl

threshold_of_three : tripped.failure_threshold ≡ 3
unfolding open_at
threshold_of_three = refl

abbrev candidate : Key → FailoverCandidate
candidate (p, m) = record {
  provider = p;
  model = m;
  modalities = "text" ∷ [];
  modalities_explicit = false;
}

abbrev both : List FailoverCandidate
both = candidate one ∷ candidate two ∷ []

order_candidates-sorted_example :
    (order_candidates 100 both tripped).0
    ≡ keep_if (is_healthy 100 tripped) both
      ++ (keep_if (is_busy 100 tripped) both ++ keep_if (is_out 100 tripped) both)
order_candidates-sorted_example = order_candidates-sorted 100 both tripped
