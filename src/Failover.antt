-- ===== src/Failover.antt =====
-- app/proxy/failover.py: `ProviderHealthTracker`, the circuit breaker of the cloud candidates, and
-- the order in which a failover group's candidates are tried. Times are in milliseconds.
use guardian_llmprovider_gat.Prelude.{
  ℕ, zero, suc, ◌+◌, max, String, Bool, true, false, ◌&&◌, Option, none, some, List, [], ◌∷◌, ◌++◌,
  ltb, leb, if◌then◌else◌, str_eq, contains,
}
use guardian_llmprovider_gat.Value.{ℤ, pos, negsuc}
mod Breaker
mod Candidates
mod Tests

-- (provider, model)
abbrev pub Key : Type 0
Key = String × String

unfoldable pub same_key : Key → Key → Bool
same_key (p, m) (q, n) = str_eq p q && str_eq m n

-- A dict of the tracker is only read, written and cleared by key: a function.
abbrev pub KeyMap : Type 0 → Type 0
KeyMap V = Key → Option V

unfoldable pub set_key : {V : Type 0} → Key → V → KeyMap V → KeyMap V
unfolding same_key
set_key k v d = λ j. if same_key k j then some v else d j

unfoldable pub pop_key : {V : Type 0} → Key → KeyMap V → KeyMap V
unfolding same_key
pop_key k d = λ j. if same_key k j then none else d j

pub record HealthTracker : Type 0 where
  pub failure_threshold : ℕ
  pub cooldown : ℕ
  pub rate_limit_cooldown : ℕ
  pub consecutive_failures : KeyMap ℕ
  pub tripped_until : KeyMap ℕ
  pub rate_limited_until : KeyMap ℕ

unfoldable pub new_tracker : (failure_threshold cooldown rate_limit_cooldown : ℕ) → HealthTracker
new_tracker failure_threshold cooldown rate_limit_cooldown = record {
  failure_threshold = failure_threshold;
  cooldown = cooldown;
  rate_limit_cooldown = rate_limit_cooldown;
  consecutive_failures = λ k. none;
  tripped_until = λ k. none;
  rate_limited_until = λ k. none;
}

-- max(value, low), and the old value for None
unfoldable pub tuned : ℕ → Option ℤ → ℕ → ℕ
tuned low none old = old
tuned low (some (pos n)) old = max n low
tuned low (some (negsuc n)) old = low

unfoldable pub reconfigure :
    (failure_threshold cooldown rate_limit_cooldown : Option ℤ) → HealthTracker → HealthTracker
unfolding tuned
reconfigure failure_threshold cooldown rate_limit_cooldown t = record t {
  failure_threshold = tuned 1 failure_threshold t.failure_threshold;
  cooldown = tuned 0 cooldown t.cooldown;
  rate_limit_cooldown = tuned 0 rate_limit_cooldown t.rate_limit_cooldown;
}

unfoldable pub record_success : Key → HealthTracker → HealthTracker
unfolding pop_key
record_success k t = record t {
  consecutive_failures = pop_key k t.consecutive_failures;
  tripped_until = pop_key k t.tripped_until;
  rate_limited_until = pop_key k t.rate_limited_until;
}

abbrev pub or_zero : Option ℕ → ℕ
or_zero none = 0
or_zero (some n) = n

unfoldable pub record_failure : ℕ → Key → HealthTracker → HealthTracker
unfolding set_key
record_failure now k t =
    let count = suc (or_zero (t.consecutive_failures k)) in
    record t {
      consecutive_failures = set_key k count t.consecutive_failures;
      tripped_until =
          if leb t.failure_threshold count
          then set_key k (now + t.cooldown) t.tripped_until
          else t.tripped_until;
    }

unfoldable pub is_tripped : ℕ → Key → HealthTracker → Bool × HealthTracker
unfolding pop_key
is_tripped now k t = elim (t.tripped_until k) [
  | none ↦ (false, t)
  | some until ↦
      if leb until now
      then (
        false,
        record t {
          tripped_until = pop_key k t.tripped_until;
          consecutive_failures = pop_key k t.consecutive_failures;
        },
      )
      else (true, t)
]

unfoldable pub record_rate_limited : ℕ → Key → HealthTracker → HealthTracker
unfolding set_key
record_rate_limited now k t = record t {
  rate_limited_until = set_key k (now + t.rate_limit_cooldown) t.rate_limited_until;
}

unfoldable pub is_rate_limited : ℕ → Key → HealthTracker → Bool × HealthTracker
unfolding pop_key
is_rate_limited now k t = elim (t.rate_limited_until k) [
  | none ↦ (false, t)
  | some until ↦
      if leb until now
      then (false, record t { rate_limited_until = pop_key k t.rate_limited_until })
      else (true, t)
]

unfoldable pub clear_rate_limit : Key → HealthTracker → HealthTracker
unfolding pop_key
clear_rate_limit k t = record t { rate_limited_until = pop_key k t.rate_limited_until }

pub record FailoverCandidate : Type 0 where
  pub provider : String
  pub model : String
  pub modalities : List String
  pub modalities_explicit : Bool

abbrev pub key_of : FailoverCandidate → Key
key_of c = (c.provider, c.model)

pub record Sorted : Type 0 where
  pub healthy : List FailoverCandidate
  pub rate_limited : List FailoverCandidate
  pub tripped : List FailoverCandidate

-- The body of the loop of `order_candidates`.
unfoldable pub place : ℕ → FailoverCandidate → Sorted × HealthTracker → Sorted × HealthTracker
unfolding is_tripped is_rate_limited
place now c (s, t) =
    let (trips, t') = is_tripped now (key_of c) t in
    let (limited, t'') = is_rate_limited now (key_of c) t' in
    if trips
    then (record s { tripped = s.tripped ++ c ∷ [] }, t')
    else if limited
    then (record s { rate_limited = s.rate_limited ++ c ∷ [] }, t'')
    else (record s { healthy = s.healthy ++ c ∷ [] }, t'')

unfoldable pub place_all :
    ℕ → List FailoverCandidate → Sorted × HealthTracker → Sorted × HealthTracker
unfolding place
place_all now [] st = st
place_all now (c ∷ cs) st = place_all now cs (place now c st)

abbrev pub joined : Sorted → List FailoverCandidate
joined s = s.healthy ++ (s.rate_limited ++ s.tripped)

unfoldable pub order_candidates :
    ℕ → List FailoverCandidate → HealthTracker → List FailoverCandidate × HealthTracker
unfolding place_all
order_candidates now cs t =
    let (s, t') = place_all now cs (record { healthy = []; rate_limited = []; tripped = [] }, t) in
    (joined s, t')
