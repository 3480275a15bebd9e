-- ===== src/BackendDeath/Shown.antt =====
-- app/gateway/backend_death.py: proofs about the state that is shown of the backend.
use guardian_llmprovider_gat.Prelude.{
  ℕ, ◌≡◌, refl, ◌⊎◌, inl, inr, ◌↔◌, String, Bool, true, false, ◌||◌, Option, none, some, List,
  arith,
}
use guardian_llmprovider_gat.Value.{Fields}
use guardian_llmprovider_gat.BackendDeath.{Library, Report, Signal, optional_bool}
use guardian_llmprovider_gat.BackendDeath.Observer.{
  CaretakerObservation, Reply, observe, alive, derive_backend_state, status_fields, is_true,
}
use guardian_llmprovider_gat.BackendDeath.Runs.{Step, new_observer}
use guardian_llmprovider_gat.BackendDeath.Remembered.{
  last_said, after, said_by_then, Contradicts, alive_in, unloaded_in, Repeats, run-Keeps,
  observe-Repeats,
}

shown_alive :
    (probe gateway : Bool) (stopped living : Option Bool) (signal : Signal)
    → derive_backend_state probe (gateway || is_true stopped) living signal ≡ alive
    → (probe ≡ true) × (gateway ≡ false) × (((stopped ≡ some true) ⊎ (living ≡ some false)) → ⊥)
unfolding derive_backend_state
shown_alive probe gateway stopped living signal h = (
  ground arith,
  ground arith,
  elim [ inl e ↦ absurd (ground arith) | inr e ↦ absurd (ground arith) ],
)

showing_alive :
    (probe gateway : Bool) (stopped living : Option Bool) (signal : Signal)
    → probe ≡ true
    → gateway ≡ false
    → (((stopped ≡ some true) ⊎ (living ≡ some false)) → ⊥)
    → derive_backend_state probe (gateway || is_true stopped) living signal ≡ alive
unfolding derive_backend_state
showing_alive probe gateway (some true) living signal p g h = absurd (h (inl refl))
showing_alive probe gateway none (some false) signal p g h = absurd (h (inr refl))
showing_alive probe gateway (some false) (some false) signal p g h = absurd (h (inr refl))
showing_alive probe gateway _ _ signal p g h = ground arith

nothing_against :
    (probe gateway : Bool) (signal : Signal)
    → (derive_backend_state probe (gateway || false) none signal ≡ alive)
      ↔ ((probe ≡ true) × (gateway ≡ false))
unfolding derive_backend_state
nothing_against probe gateway signal = (λ h. ground arith, λ h. ground arith)

derived-alive :
    (s : Option Fields) (probe gateway : Bool) (signal : Signal)
    → (derive_backend_state probe (gateway || is_true (unloaded_in s)) (alive_in s) signal ≡ alive)
      ↔ ((probe ≡ true) × (gateway ≡ false) × (Contradicts s → ⊥))
derived-alive none probe gateway signal =
    let (to, from) = nothing_against probe gateway signal in
    (λ h. ((to h).0, (to h).1, λ c. c), λ h. from (h.0, h.1))
derived-alive (some status) probe gateway signal =
    let stopped = optional_bool "is_unloaded" status in
    let living = optional_bool "backend_alive" status in
    (
      λ h. shown_alive probe gateway stopped living signal h,
      λ h. showing_alive probe gateway stopped living signal h.0 h.1 h.2,
    )

repeated-alive :
    (s : Option Fields) (c : CaretakerObservation) (probe gateway : Bool)
    (last_report : Option Report)
    → Repeats s c
    → ((status_fields c probe gateway last_report).backend_state ≡ alive)
      ↔ ((probe ≡ true) × (gateway ≡ false) × (Contradicts s → ⊥))
unfolding status_fields
repeated-alive s c probe gateway last_report (living, stopped) =
    rw (living, stopped) (derived-alive s probe gateway c.death_signal)

-- However the daemon was polled before and whatever else recorded crashes, the backend is shown as alive
-- exactly if its own probe succeeds, it was not unloaded here, and the daemon, if it could be read when it
-- was read last, said neither that it was unloaded nor that it is not alive. That read is one of this call,
-- or the one whose observation is still in the cache. In particular a daemon that only claims that the
-- backend is alive, or that could not be read, makes nothing alive and, as API_REFERENCE.md has it but not
-- the module's docstring, hides no healthy probe either.
pub backend_state-alive_iff :
    (py : Library) (cache_ms : ℕ) (es : List Step) (asked locked finished : ℕ)
    (observed_at read_at : String) (reply : Reply) (probe_healthy gateway_unloaded : Bool)
    (last_report : Option Report)
    → let o = after py es (new_observer cache_ms) in
      (s : Option Fields) × (said_by_then asked locked reply o
          (last_said py es (new_observer cache_ms) none)
        ≡ some s)
      × (((status_fields
              (observe py true asked locked finished observed_at read_at reply o).0
              probe_healthy
              gateway_unloaded
              last_report).backend_state
            ≡ alive)
          ↔ ((probe_healthy ≡ true) × (gateway_unloaded ≡ false) × (Contradicts s → ⊥)))
backend_state-alive_iff py cache_ms es asked locked finished observed_at read_at reply probe gateway
      last_report =
    let o = after py es (new_observer cache_ms) in
    let before = last_said py es (new_observer cache_ms) none in
    let kept = run-Keeps py es (new_observer cache_ms) none refl in
    let (s, e, r) =
      observe-Repeats py asked locked finished observed_at read_at reply o before kept in
    (
      s,
      e,
      repeated-alive s (observe py true asked locked finished observed_at read_at reply o).0 probe
          gateway last_report r,
    )
