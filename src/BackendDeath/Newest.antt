-- ===== src/BackendDeath/Newest.antt =====
-- app/gateway/backend_death.py: proofs about the last death and about the polling of the daemon.
use guardian_llmprovider_gat.Prelude.{
  ℕ, ◌≤◌, ◌≡◌, refl, sym, subst, ◌∙◌, ◌⊎◌, inl, inr, String, true, false, Option, none, some, List,
  [], ◌∷◌, ◌++◌, arith, Bool-cases, All, leb, leb→le,
}
use guardian_llmprovider_gat.Value.{Value, null, mapping, Fields, get, or_null}
use guardian_llmprovider_gat.BackendDeath.{
  Library, Report, Signal, fingerprint, parsed_timestamp, valid_timestamp, clean_str,
  parse_death_signal, complete_report, parse_payload,
}
use guardian_llmprovider_gat.BackendDeath.Observer.{
  BackendDeathObserver, client_status, is_seen, newest_report, record_death, record_if, cached,
}
use guardian_llmprovider_gat.BackendDeath.Runs.{
  Step, refreshed, crashed, step, report_read, Log, empty_log, note, log, run, new_observer, core,
  Core, refresh-core, status_report,
}

module _ (py : Library) where
  abbrev IsDated : Report → Type 0
  IsDated r = (t : ℕ) × (parsed_timestamp py r.timestamp ≡ some t)

  -- The report `r` is dated, and no later than `l`.
  abbrev pub NotLater : (l r : Report) → Type 0
  NotLater l r =
      (t u : ℕ) × (parsed_timestamp py r.timestamp ≡ some t)
      × (parsed_timestamp py l.timestamp ≡ some u)
      × (t ≤ u)

  abbrev pub Among : Report → List Report → Type 0
  Among l [] = ⊥
  Among l (r ∷ rs) = (l ≡ r) ⊎ Among l rs

  -- The newest of the reports that were read, by their own dates.
  abbrev pub IsNewest : Option Report → List Report → Type 0
  IsNewest none rs = rs ≡ []
  IsNewest (some l) rs = IsDated l × Among l rs × All (NotLater l) rs

  Among-snoc : (l r : Report) (rs : List Report) → Among l rs → Among l (rs ++ r ∷ [])
  Among-snoc l r [] h = absurd h
  Among-snoc l r (x ∷ rs) (inl e) = inl e
  Among-snoc l r (x ∷ rs) (inr h) = inr (Among-snoc l r rs h)

  Among-last : (r : Report) (rs : List Report) → Among r (rs ++ r ∷ [])
  Among-last r [] = inl refl
  Among-last r (x ∷ rs) = inr (Among-last r rs)

  All-later :
      (l m r : Report) (rs : List Report)
      → NotLater m l
      → All (NotLater l) rs
      → NotLater m r
      → All (NotLater m) (rs ++ r ∷ [])
  All-later l m r [] le h last = (last, tt)
  All-later l m r (x ∷ rs) (t, u, p, q, le) ((a, b, c, d, le'), h) last =
      let same : some b ≡ some t = sym d ∙ p in
      (
        (a, u, c, q, omega (arith, some_injective b t same)),
        All-later l m r rs (t, u, p, q, le) h last,
      )
    where
      some_injective : (x y : ℕ) → some x ≡ some y → x ≡ y
      some_injective x y e = cc

  newest_report-IsNewest :
      (o : Option Report) (r : Report) (rs : List Report)
      → IsDated r
      → IsNewest o rs
      → IsNewest (some (newest_report py o r)) (rs ++ r ∷ [])
  unfolding newest_report
  newest_report-IsNewest none r rs (t, e) h =
      rw h ((t, e), inl refl, ((t, t, e, e, omega arith), tt))
  newest_report-IsNewest (some l) r rs (t, e) ((u, d), among, all) = elim (Bool-cases (leb u t)) [
    | inl later ↦
        rw (e, d, later)
          (
            (t, e),
            Among-last r rs,
            All-later l r r rs (u, t, d, e, leb→le u t later) all (t, t, e, e, omega arith),
          )
    | inr earlier ↦
        rw (e, d, earlier)
          (
            (u, d),
            Among-snoc l r rs among,
            All-later l l r rs (u, u, d, d, omega arith) all (t, u, e, d, not_later earlier),
          )
  ]
    where
      not_later : leb u t ≡ false → t ≤ u
      not_later h = ground arith

  abbrev AreDated : Option Report → Type 0
  AreDated none = Unit
  AreDated (some r) = IsDated r

  valid-IsDated :
      (t : String) → valid_timestamp py t ≡ true → (u : ℕ) × (parsed_timestamp py t ≡ some u)
  unfolding valid_timestamp
  valid-IsDated t h = ground arith

  complete_report-AreDated :
      (payload : Fields) (at : String) (cause model timestamp : Option String)
      → AreDated (complete_report py payload at cause model timestamp).1
  complete_report-AreDated payload at (some cause) (some model) (some timestamp) =
      elim (Bool-cases (valid_timestamp py timestamp)) [
        | inl valid ↦ rw valid (valid-IsDated timestamp valid)
        | inr invalid ↦ rw invalid tt
      ]
  complete_report-AreDated payload at none model timestamp = tt
  complete_report-AreDated payload at (some cause) none timestamp = tt
  complete_report-AreDated payload at (some cause) (some model) none = tt

  parse_payload-AreDated : (at : String) (v : Value) → AreDated (parse_payload py at v).1
  parse_payload-AreDated at null = tt
  parse_payload-AreDated at (mapping payload) =
      complete_report-AreDated payload at (clean_str 64 (or_null (get "cause" payload)))
        (clean_str 200 (or_null (get "model" payload)))
        (clean_str 64 (or_null (get "timestamp" payload)))
  parse_payload-AreDated at _ = tt

  -- A report that is accepted has a date.
  parse_death_signal-AreDated : (at : String) (v : Value) → AreDated (parse_death_signal py at v).1
  unfolding parse_death_signal
  parse_death_signal-AreDated at (mapping status) =
      elim (get "last_death" status)
        as (λ o.
          AreDated
            (elim o as (λ _. Signal × Option Report) [
              | none ↦ (Signal.unsupported, none)
              | some payload ↦ parse_payload py at payload
            ]).1) [ none ↦ tt | some payload ↦ parse_payload-AreDated at payload ]
  parse_death_signal-AreDated at null = tt
  parse_death_signal-AreDated at _ = tt

  report_read-AreDated : (e : Step) (o : BackendDeathObserver) → AreDated (report_read py e o)
  unfolding report_read
  report_read-AreDated (refreshed now finished at read_at reply) o =
      elim (cached now o)
        as (λ c. AreDated (elim c as (λ _. Option Report) [
          | some k ↦ none
          | none ↦ status_report py at (client_status reply)
        ])) [ some k ↦ tt | none ↦ from (client_status reply) ]
    where
      from : (s : Option Fields) → AreDated (status_report py at s)
      from none = tt
      from (some status) = parse_death_signal-AreDated at (mapping status)
  report_read-AreDated (crashed c) o = tt

  note-IsNewest :
      (r : Option Report) (o : BackendDeathObserver) (l : Log)
      → AreDated r
      → IsNewest o.last_report l.read
      → IsNewest (core (record_if py r o)).1 (note py r o l).read
  unfolding record_death
  note-IsNewest none o l d h = h
  note-IsNewest (some r) o l d h = elim (Bool-cases (is_seen (fingerprint py r) o.seen)) [
    | inl old ↦ rw old (newest_report-IsNewest o.last_report r l.read d h)
    | inr new ↦ rw new (newest_report-IsNewest o.last_report r l.read d h)
  ]

  step-IsNewest :
      (e : Step) (o : BackendDeathObserver) (l : Log)
      → IsNewest o.last_report l.read
      → IsNewest (step py e o).last_report (log py e o l).read
  unfolding step log
  step-IsNewest (refreshed now finished at read_at reply) o l h =
      let e = refreshed now finished at read_at reply in
      subst (λ (c : Core). IsNewest c.1 (note py (report_read py e o) o l).read)
        (sym (refresh-core py now finished at read_at reply o))
        (note-IsNewest (report_read py e o) o l (report_read-AreDated e o) h)
  step-IsNewest (crashed c) o l h = h

  IsNewest-kept :
      (es : List Step) (o : BackendDeathObserver) (l : Log)
      → IsNewest o.last_report l.read
      → IsNewest (run py es (o, l)).0.last_report (run py es (o, l)).1.read
  unfolding run
  IsNewest-kept [] o l h = h
  IsNewest-kept (e ∷ es) o l h =
      IsNewest-kept es (step py e o) (log py e o l) (step-IsNewest e o l h)

-- The last death that `/api/status` shows is the newest by its own date of all that were reported so
-- far, in whatever order the reports came, and all of these have a date; it is none while no death was
-- reported.
pub run-IsNewest :
    (py : Library) (cache_ms : ℕ) (es : List Step)
    → IsNewest py
        (run py es (new_observer cache_ms, empty_log)).0.last_report
        (run py es (new_observer cache_ms, empty_log)).1.read
run-IsNewest py cache_ms es = IsNewest-kept py es (new_observer cache_ms) empty_log refl
