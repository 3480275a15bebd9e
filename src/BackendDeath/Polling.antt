-- ===== src/BackendDeath/Polling.antt =====
-- app/gateway/backend_death.py: proofs about how often the daemon is read.
use guardian_llmprovider_gat.Prelude.{
  ℕ, ◌+◌, ◌≤◌, ◌<◌, ◌≡◌, refl, sym, subst, ◌∙◌, String, Option, none, some, List, [], ◌∷◌, arith,
}
use guardian_llmprovider_gat.Value.{mapping, Fields}
use guardian_llmprovider_gat.BackendDeath.{Library, Report, parse_death_signal}
use guardian_llmprovider_gat.BackendDeath.Observer.{
  CaretakerObservation, BackendDeathObserver, Reply, client_status, cached, read, refresh,
  record_if, read_status, record_death,
}
use guardian_llmprovider_gat.BackendDeath.Runs.{Step, refreshed, crashed, step, new_observer}

-- When the reads of a run begin and end.
unfoldable pub read_times : Library → List Step → BackendDeathObserver → List (ℕ × ℕ)
unfolding step
read_times py [] o = []
read_times py (refreshed now finished observed_at read_at reply ∷ es) o =
    let rest = read_times py es (step py (refreshed now finished observed_at read_at reply) o) in
    elim (cached now o) [ some c ↦ rest | none ↦ (now, finished) ∷ rest ]
read_times py (crashed c ∷ es) o = read_times py es (step py (crashed c) o)

-- Each read begins at least `gap` after the end of the one before it.
abbrev pub Apart : (gap : ℕ) → (before : Option ℕ) → List (ℕ × ℕ) → Type 0
Apart gap before [] = Unit
Apart gap none ((start, end) ∷ reads) = Apart gap (some end) reads
Apart gap (some t) ((start, end) ∷ reads) = (t + gap ≤ start) × Apart gap (some end) reads

-- The observer holds what the read that ended then gave.
abbrev Remembers : (before : Option ℕ) → BackendDeathObserver → Type 0
Remembers none o = o.last ≡ none
Remembers (some t) o = (c : CaretakerObservation) × (o.last ≡ some c) × (o.last_at ≡ t)

module _ (py : Library) (gap : ℕ) (positive : 0 < gap) where
  cached-recent :
      (now t : ℕ) (o : BackendDeathObserver)
      → o.cache_ms ≡ gap
      → Remembers (some t) o
      → cached now o ≡ none
      → t + gap ≤ now
  unfolding cached
  cached-recent now t o g (c, kept, at) h = ground arith

  refresh-kept :
      (now finished : ℕ) (observed_at read_at : String) (reply : Reply) (o : BackendDeathObserver)
      (c : CaretakerObservation)
      → cached now o ≡ some c
      → (refresh py now finished observed_at read_at reply o).1 ≡ o
  unfolding refresh
  refresh-kept now finished observed_at read_at reply o c h = rw (h, refresh) refl

  record_death-cache :
      (r : Report) (o : BackendDeathObserver) → (record_death py r o).cache_ms ≡ o.cache_ms
  unfolding record_death
  record_death-cache r o = ground arith

  read-cache :
      (observed_at read_at : String) (reply : Reply) (o : BackendDeathObserver)
      → (read py observed_at read_at reply o).1.cache_ms ≡ o.cache_ms
  unfolding read parse_death_signal
  read-cache observed_at read_at reply o = from (client_status reply)
    where
      recorded : (r : Option Report) → (record_if py r o).cache_ms ≡ o.cache_ms
      recorded none = refl
      recorded (some r) = record_death-cache r o

      from : (s : Option Fields) → (read_status py observed_at read_at s o).1.cache_ms ≡ o.cache_ms
      from none = refl
      from (some status) = recorded (parse_death_signal py observed_at (mapping status)).1

  refresh-read :
      (now finished : ℕ) (observed_at read_at : String) (reply : Reply) (o : BackendDeathObserver)
      → cached now o ≡ none
      → Remembers (some finished) (refresh py now finished observed_at read_at reply o).1
        × ((refresh py now finished observed_at read_at reply o).1.cache_ms ≡ o.cache_ms)
  unfolding refresh
  refresh-read now finished observed_at read_at reply o h =
      rw (h, refresh)
        (
          ((read py observed_at read_at reply o).0, refl, refl),
          read-cache observed_at read_at reply o,
        )

  one_more :
      (now finished : ℕ) (o : BackendDeathObserver) (before : Option ℕ) (reads : List (ℕ × ℕ))
      → o.cache_ms ≡ gap
      → Remembers before o
      → cached now o ≡ none
      → Apart gap (some finished) reads
      → Apart gap before ((now, finished) ∷ reads)
  one_more now finished o none reads g m h rest = rest
  one_more now finished o (some t) reads g m h rest = (cached-recent now t o g m h, rest)

  reads-Apart :
      (es : List Step) (o : BackendDeathObserver) (before : Option ℕ)
      → o.cache_ms ≡ gap
      → Remembers before o
      → Apart gap before (read_times py es o)
  unfolding read_times
  reads-Apart [] o before g m = tt
  reads-Apart (crashed c ∷ es) o none g m = reads-Apart es (step py (crashed c) o) none g m
  reads-Apart (crashed c ∷ es) o (some t) g m = reads-Apart es (step py (crashed c) o) (some t) g m
  reads-Apart (refreshed now finished observed_at read_at reply ∷ es) o before g m =
      go (cached now o) refl (reads-Apart es o before g m)
        (λ k. reads-Apart es o' (some finished) k)
    where
      o' : BackendDeathObserver
      o' = (refresh py now finished observed_at read_at reply o).1

      go :
          (k : Option CaretakerObservation)
          → cached now o ≡ k
          → Apart gap before (read_times py es o)
          → (o'.cache_ms ≡ gap
              → Remembers (some finished) o'
              → Apart gap (some finished) (read_times py es o'))
          → Apart gap before (elim k [
            | some c ↦ read_times py es o'
            | none ↦ (now, finished) ∷ read_times py es o'
          ])
      go (some c) kept same more =
          subst (λ (s : BackendDeathObserver). Apart gap before (read_times py es s))
            (sym (refresh-kept now finished observed_at read_at reply o c kept)) same
      go none missed same more =
          let after = refresh-read now finished observed_at read_at reply o missed in
          one_more now finished o before (read_times py es o') g m missed
            (more (after.1 ∙ g) after.0)

-- However often the status is asked for, and by however many at once, the daemon is read again only
-- `cache_ms` after the end of the read before, if that is not 0.
pub read_times-Apart :
    (py : Library) (cache_ms : ℕ) (es : List Step)
    → 0 < cache_ms
    → Apart cache_ms none (read_times py es (new_observer cache_ms))
read_times-Apart py cache_ms es positive =
    reads-Apart py cache_ms positive es (new_observer cache_ms) none refl refl
