-- ===== src/BackendDeath/Remembered.antt =====
-- app/gateway/backend_death.py: proofs about what the observer remembers of what the daemon said.
use guardian_llmprovider_gat.Prelude.{
  ℕ, ◌≡◌, refl, subst, ◌⊎◌, String, Bool, true, false, Option, none, some, List, [], ◌∷◌, arith,
}
use guardian_llmprovider_gat.Value.{Fields}
use guardian_llmprovider_gat.BackendDeath.{Library, parse_death_signal, optional_bool}
use guardian_llmprovider_gat.BackendDeath.Observer.{
  CaretakerObservation, BackendDeathObserver, Reply, client_status, cached, read, refresh, observe,
  unavailable, read_status,
}
use guardian_llmprovider_gat.BackendDeath.Runs.{Step, refreshed, crashed, step}

-- What the daemon said in the last read of a run: a status, or `none` if it could not be read.
unfoldable pub last_said :
    Library
    → List Step
    → BackendDeathObserver
    → (before : Option (Option Fields)) → Option (Option Fields)
unfolding step
last_said py [] o before = before
last_said py (refreshed now finished observed_at read_at reply ∷ es) o before =
    last_said py es (step py (refreshed now finished observed_at read_at reply) o)
      (elim (cached now o) [ some c ↦ before | none ↦ some (client_status reply) ])
last_said py (crashed c ∷ es) o before = last_said py es (step py (crashed c) o) before

unfoldable pub after : Library → List Step → BackendDeathObserver → BackendDeathObserver
unfolding step
after py [] o = o
after py (e ∷ es) o = after py es (step py e o)

-- What the daemon said before an observation or, if neither look at the cache finds one, in it.
abbrev pub said_by_then :
    (asked locked : ℕ)
    → Reply
    → BackendDeathObserver
    → (before : Option (Option Fields)) → Option (Option Fields)
said_by_then asked locked reply o before = elim (cached asked o) [
  | some c ↦ before
  | none ↦ elim (cached locked o) [ some c ↦ before | none ↦ some (client_status reply) ]
]

-- What the daemon says against the backend: that it was unloaded, or that it is not alive.
abbrev pub Contradicts : Option Fields → Type 0
Contradicts none = ⊥
Contradicts (some status) =
    (optional_bool "is_unloaded" status ≡ some true)
    ⊎ (optional_bool "backend_alive" status ≡ some false)

abbrev pub alive_in : Option Fields → Option Bool
alive_in none = none
alive_in (some status) = optional_bool "backend_alive" status

abbrev pub unloaded_in : Option Fields → Option Bool
unloaded_in none = none
unloaded_in (some status) = optional_bool "is_unloaded" status

-- An observation repeats what the daemon said.
abbrev pub Repeats : Option Fields → CaretakerObservation → Type 0
Repeats s c = (c.backend_alive ≡ alive_in s) × (c.is_unloaded ≡ unloaded_in s)

-- The observer keeps an observation that repeats what the daemon said last.
abbrev pub Keeps : (before : Option (Option Fields)) → BackendDeathObserver → Type 0
Keeps none o = o.last ≡ none
Keeps (some s) o = (c : CaretakerObservation) × (o.last ≡ some c) × Repeats s c

cached-last :
    (now : ℕ) (o : BackendDeathObserver) (c : CaretakerObservation)
    → cached now o ≡ some c
    → o.last ≡ some c
unfolding cached
cached-last now o c h = ground arith

cached-Repeats :
    (now : ℕ) (o : BackendDeathObserver) (c : CaretakerObservation)
    (before : Option (Option Fields))
    → cached now o ≡ some c
    → Keeps before o
    → (s : Option Fields) × (before ≡ some s) × Repeats s c
cached-Repeats now o c none h k = let l = cached-last now o c h in absurd (cc)
cached-Repeats now o c (some s) h (d, e, r) =
    let l = cached-last now o c h in let same : d ≡ c = cc in (s, refl, subst (Repeats s) same r)

read-Repeats :
    (py : Library) (observed_at read_at : String) (reply : Reply) (o : BackendDeathObserver)
    → Repeats (client_status reply) (read py observed_at read_at reply o).0
unfolding read unavailable parse_death_signal
read-Repeats py observed_at read_at reply o = from (client_status reply)
  where
    from : (s : Option Fields) → Repeats s (read_status py observed_at read_at s o).0
    from none = (refl, refl)
    from (some status) = (refl, refl)

refresh-Keeps :
    (py : Library) (now finished : ℕ) (observed_at read_at : String) (reply : Reply)
    (o : BackendDeathObserver) (before : Option (Option Fields))
    → Keeps before o
    → Keeps
        (elim (cached now o) [ some c ↦ before | none ↦ some (client_status reply) ])
        (refresh py now finished observed_at read_at reply o).1
unfolding refresh
refresh-Keeps py now finished observed_at read_at reply o before h = refreshed_by (cached now o)
  where
    refreshed_by :
        (k : Option CaretakerObservation)
        → Keeps
            (elim k [ some c ↦ before | none ↦ some (client_status reply) ])
            (elim k as (λ x. CaretakerObservation × BackendDeathObserver) [
              | some c ↦ (c, o)
              | none ↦
                  let (c, o') = read py observed_at read_at reply o in
                  (c, record o' { last = some c; last_at = finished })
            ]).1
    refreshed_by none =
        ((read py observed_at read_at reply o).0, refl, read-Repeats py observed_at read_at reply o)
    refreshed_by (some c) = h

pub run-Keeps :
    (py : Library) (es : List Step) (o : BackendDeathObserver) (before : Option (Option Fields))
    → Keeps before o
    → Keeps (last_said py es o before) (after py es o)
unfolding last_said after step
run-Keeps py [] o before h = h
run-Keeps py (refreshed now finished observed_at read_at reply ∷ es) o before h =
    run-Keeps py es (step py (refreshed now finished observed_at read_at reply) o)
      (elim (cached now o) [ some c ↦ before | none ↦ some (client_status reply) ])
      (refresh-Keeps py now finished observed_at read_at reply o before h)
run-Keeps py (crashed c ∷ es) o none h = run-Keeps py es (step py (crashed c) o) none h
run-Keeps py (crashed c ∷ es) o (some s) h = run-Keeps py es (step py (crashed c) o) (some s) h

refresh-Repeats :
    (py : Library) (now finished : ℕ) (observed_at read_at : String) (reply : Reply)
    (o : BackendDeathObserver) (before : Option (Option Fields))
    → Keeps before o
    → (s : Option Fields) × (elim (cached now o) [
      | some c ↦ before
      | none ↦ some (client_status reply)
    ]
        ≡ some s)
      × Repeats s (refresh py now finished observed_at read_at reply o).0
unfolding refresh
refresh-Repeats py now finished observed_at read_at reply o before h = looking (cached now o) refl
  where
    looking :
        (k : Option CaretakerObservation)
        → cached now o ≡ k
        → (s : Option Fields) × (elim k [ some c ↦ before | none ↦ some (client_status reply) ]
            ≡ some s)
          × Repeats s
              (elim k as (λ x. CaretakerObservation × BackendDeathObserver) [
                | some c ↦ (c, o)
                | none ↦
                    let (c, o') = read py observed_at read_at reply o in
                    (c, record o' { last = some c; last_at = finished })
              ]).0
    looking (some c) e = cached-Repeats now o c before e h
    looking none e = (client_status reply, refl, read-Repeats py observed_at read_at reply o)

pub observe-Repeats :
    (py : Library) (asked locked finished : ℕ) (observed_at read_at : String) (reply : Reply)
    (o : BackendDeathObserver) (before : Option (Option Fields))
    → Keeps before o
    → (s : Option Fields) × (said_by_then asked locked reply o before ≡ some s)
      × Repeats s (observe py true asked locked finished observed_at read_at reply o).0
unfolding observe
observe-Repeats py asked locked finished observed_at read_at reply o before h =
    asking (cached asked o) refl
  where
    asking :
        (k : Option CaretakerObservation)
        → cached asked o ≡ k
        → (s : Option Fields) × (elim k [
          | some c ↦ before
          | none ↦ elim (cached locked o) [ some c ↦ before | none ↦ some (client_status reply) ]
        ]
            ≡ some s)
          × Repeats s
              (elim k as (λ x. CaretakerObservation × BackendDeathObserver) [
                | some c ↦ (c, o)
                | none ↦ refresh py locked finished observed_at read_at reply o
              ]).0
    asking (some c) e = cached-Repeats asked o c before e h
    asking none e = refresh-Repeats py locked finished observed_at read_at reply o before h
