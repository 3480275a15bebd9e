-- ===== src/BackendDeath/Recorded.antt =====
-- app/gateway/backend_death.py: proofs that reported deaths are recorded, once.
use guardian_llmprovider_gat.Prelude.{
  ℕ, ◌≡◌, refl, sym, ap, ◌∙◌, Bool, true, false, ◌||◌, Option, none, some, List, [], ◌∷◌, ◌++◌,
  arith, inl, inr, Bool-cases, All, any, length, ltb, last_n, last_n-append, last_n-short,
  any-last_n, last_n-nil, subst, eq_iff, append_assoc, append_nil,
}
use guardian_llmprovider_gat.BackendDeath.{
  Library, Report, Fingerprint, by_event, by_record, same_fingerprint, fingerprint, CrashRecord,
  ModelManager, trimmed, max_crash_history, record_crash,
}
use guardian_llmprovider_gat.BackendDeath.Observer.{
  BackendDeathObserver, is_seen, crash_of, record_death, record_if, recorded_by,
  seen_fingerprints_limit,
}
use guardian_llmprovider_gat.BackendDeath.Runs.{
  Step, refreshed, crashed, step, report_read, Log, empty_log, note, log, run, new_observer, core,
  Core, refresh-core,
}

trimmed-last_n {ℓ} : {A : Type ℓ} (limit : ℕ) (xs : List A) → trimmed limit xs ≡ last_n limit xs
trimmed-last_n limit xs = elim (Bool-cases (ltb limit (length xs))) [
  | inl long ↦ rw long refl
  | inr short ↦ rw short (sym (last_n-short limit xs (ground arith)))
]

-- The window of a list moves on with it.
trimmed-snoc {ℓ} :
    {A : Type ℓ} (limit : ℕ) (kept all : List A) (x : A)
    → kept ≡ last_n limit all
    → trimmed limit (kept ++ x ∷ []) ≡ last_n limit (all ++ x ∷ [])
trimmed-snoc limit kept all x h =
    trimmed-last_n limit (kept ++ x ∷ [])
    ∙ ap (λ ys. last_n limit (ys ++ x ∷ [])) h
    ∙ last_n-append limit all (x ∷ [])

same_fingerprint_refl : (f : Fingerprint) → same_fingerprint f f ≡ true
unfolding same_fingerprint
same_fingerprint_refl (by_event e) = ground (arith, eq_iff e e)
same_fingerprint_refl (by_record t c m x s) =
    ground (arith, eq_iff t t, eq_iff c c, eq_iff m m, eq_iff x x, eq_iff s s)

any-append {ℓ} :
    {A : Type ℓ} (p : A → Bool) (xs ys : List A) → any p (xs ++ ys) ≡ (any p xs || any p ys)
any-append p [] ys = refl
any-append p (x ∷ xs) ys = ground (arith, any-append p xs ys)

module _ (py : Library) where
  abbrev pub fingerprints : List Report → List Fingerprint
  fingerprints [] = []
  fingerprints (r ∷ rs) = fingerprint py r ∷ fingerprints rs

  abbrev pub recent : List Report → List Fingerprint
  recent rs = last_n seen_fingerprints_limit (fingerprints rs)

  -- No report repeats a fingerprint of the 64 recorded before it, the `before` ones included.
  abbrev pub Spaced : (before : List Report) → List Report → Type 0
  Spaced before [] = Unit
  Spaced before (r ∷ rs) =
      (is_seen (fingerprint py r) (recent before) ≡ false) × Spaced (before ++ r ∷ []) rs

  -- All have been recorded, if not under another report with the same fingerprint.
  abbrev pub AllRecorded : (recorded : List Report) → List Report → Type 0
  AllRecorded recorded rs = All (λ r. is_seen (fingerprint py r) (fingerprints recorded) ≡ true) rs

  abbrev pub Holds : Option ModelManager → List CrashRecord → Type 0
  Holds none crashes = ⊥
  Holds (some m) crashes = m.crash_history ≡ last_n max_crash_history crashes

  pub record IsFaithful (c : Core) (l : Log) : Type 0 where
    pub window : c.0 ≡ recent l.recorded
    pub spaced : Spaced [] l.recorded
    pub complete : AllRecorded l.recorded l.read
    pub history : Holds c.2 l.crashes

  fingerprints-append :
      (rs : List Report) (r : Report)
      → fingerprints (rs ++ r ∷ []) ≡ fingerprints rs ++ fingerprint py r ∷ []
  fingerprints-append [] r = refl
  fingerprints-append (x ∷ rs) r = ap (λ fs. fingerprint py x ∷ fs) (fingerprints-append rs r)

  Spaced-snoc :
      (before rs : List Report) (r : Report)
      → Spaced before rs
      → is_seen (fingerprint py r) (recent (before ++ rs)) ≡ false
      → Spaced before (rs ++ r ∷ [])
  Spaced-snoc before [] r s new =
      (ap (λ ys. is_seen (fingerprint py r) (recent ys)) (sym (append_nil before)) ∙ new, tt)
  Spaced-snoc before (x ∷ rs) r s new = (
    s.0,
    Spaced-snoc (before ++ x ∷ []) rs r s.1
        (ap (λ ys. is_seen (fingerprint py r) (recent ys)) (append_assoc before (x ∷ []) rs) ∙ new),
  )

  is_seen-recorded :
      (f : Fingerprint) (rs : List Report) (r : Report)
      → is_seen f (fingerprints rs) ≡ true
      → is_seen f (fingerprints (rs ++ r ∷ [])) ≡ true
  unfolding is_seen
  is_seen-recorded f [] r h = absurd (ground arith)
  is_seen-recorded f (x ∷ rs) r h = ground (arith, is_seen-recorded f rs r)

  is_seen-last :
      (rs : List Report) (r : Report)
      → is_seen (fingerprint py r) (fingerprints (rs ++ r ∷ [])) ≡ true
  unfolding is_seen
  is_seen-last [] r = ground (arith, same_fingerprint_refl (fingerprint py r))
  is_seen-last (x ∷ rs) r = ground (arith, is_seen-last rs r)

  is_seen-recent :
      (f : Fingerprint) (rs : List Report)
      → is_seen f (recent rs) ≡ true
      → is_seen f (fingerprints rs) ≡ true
  unfolding is_seen
  is_seen-recent f rs h =
      any-last_n (λ g. same_fingerprint g f) seen_fingerprints_limit (fingerprints rs) h

  AllRecorded-more :
      (recorded rs : List Report) (r : Report)
      → AllRecorded recorded rs
      → AllRecorded (recorded ++ r ∷ []) rs
  AllRecorded-more recorded [] r h = tt
  AllRecorded-more recorded (x ∷ rs) r h =
      (is_seen-recorded (fingerprint py x) recorded r h.0, AllRecorded-more recorded rs r h.1)

  AllRecorded-snoc :
      (recorded rs : List Report) (r : Report)
      → AllRecorded recorded rs
      → is_seen (fingerprint py r) (fingerprints recorded) ≡ true
      → AllRecorded recorded (rs ++ r ∷ [])
  AllRecorded-snoc recorded [] r h new = (new, tt)
  AllRecorded-snoc recorded (x ∷ rs) r h new = (h.0, AllRecorded-snoc recorded rs r h.1 new)

  Holds-recorded :
      (c : CrashRecord) (m : Option ModelManager) (crashes : List CrashRecord)
      → Holds m crashes
      → Holds (recorded_by c m) (crashes ++ c ∷ [])
  unfolding record_crash
  Holds-recorded c none crashes h = h
  Holds-recorded c (some m) crashes h = trimmed-snoc max_crash_history m.crash_history crashes c h

  note-IsFaithful :
      (r : Option Report) (o : BackendDeathObserver) (l : Log)
      → IsFaithful (core o) l
      → IsFaithful (core (record_if py r o)) (note py r o l)
  unfolding record_death
  note-IsFaithful none o l h = h
  note-IsFaithful (some r) o l h = elim (Bool-cases (is_seen (fingerprint py r) o.seen)) [
    | inl old ↦ rw old (record {
      window = h.window;
      spaced = h.spaced;
      complete = AllRecorded-snoc l.recorded l.read r h.complete (
          is_seen-recent (fingerprint py r) l.recorded
            (ap (is_seen (fingerprint py r)) (sym h.window) ∙ old));
      history = h.history;
    })
    | inr new ↦ rw new (record {
      window =
          trimmed-snoc seen_fingerprints_limit o.seen (fingerprints l.recorded) (fingerprint py r)
            h.window
          ∙ ap (last_n seen_fingerprints_limit) (sym (fingerprints-append l.recorded r));
      spaced =
          Spaced-snoc [] l.recorded r h.spaced
            (ap (is_seen (fingerprint py r)) (sym h.window) ∙ new);
      complete =
          AllRecorded-snoc (l.recorded ++ r ∷ []) l.read r
            (AllRecorded-more l.recorded l.read r h.complete) (is_seen-last l.recorded r);
      history = Holds-recorded (crash_of py r) o.manager l.crashes h.history;
    })
  ]

  step-IsFaithful :
      (e : Step) (o : BackendDeathObserver) (l : Log)
      → IsFaithful (core o) l
      → IsFaithful (core (step py e o)) (log py e o l)
  unfolding step log
  step-IsFaithful (refreshed now finished observed_at read_at reply) o l h =
      let e = refreshed now finished observed_at read_at reply in
      subst (λ c. IsFaithful c (note py (report_read py e o) o l))
        (sym (refresh-core py now finished observed_at read_at reply o))
        (note-IsFaithful (report_read py e o) o l h)
  step-IsFaithful (crashed c) o l h = record {
    window = h.window;
    spaced = h.spaced;
    complete = h.complete;
    history = Holds-recorded c o.manager l.crashes h.history;
  }

  run-kept :
      (es : List Step) (o : BackendDeathObserver) (l : Log)
      → IsFaithful (core o) l
      → IsFaithful (core (run py es (o, l)).0) (run py es (o, l)).1
  unfolding run
  run-kept [] o l h = h
  run-kept (e ∷ es) o l h = run-kept es (step py e o) (log py e o l) (step-IsFaithful e o l h)

-- However the daemon's status is polled, and whatever else records crashes meanwhile: every death
-- that was reported has been recorded, under its own report or one with the same fingerprint; none is
-- recorded again within the next 64; the observer remembers the fingerprints of the last 64 recorded
-- deaths; and the crash history holds the last 50 crashes, reported deaths and others, in their order.
pub run-IsFaithful :
    (py : Library) (cache_ms : ℕ) (es : List Step)
    → IsFaithful py
        (core (run py es (new_observer cache_ms, empty_log)).0)
        (run py es (new_observer cache_ms, empty_log)).1
run-IsFaithful py cache_ms es = run-kept py es (new_observer cache_ms) empty_log (record {
  window = sym (last_n-nil seen_fingerprints_limit);
  spaced = tt;
  complete = tt;
  history = sym (last_n-nil max_crash_history);
})
