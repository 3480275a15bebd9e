-- ===== src/Failover/Candidates.antt =====
-- app/proxy/failover.py: proofs about `order_candidates`.
use guardian_llmprovider_gat.Prelude.{
  ℕ, ◌≡◌, refl, ap, subst, ◌∙◌, Bool, true, false, not, ◌&&◌, Option, none, some, List, [], ◌∷◌,
  ◌++◌, arith, Bool-cases, Option-cases, inl, inr, ltb, leb, if◌then◌else◌, keep_if, append_assoc,
  append_nil,
}
use guardian_llmprovider_gat.Failover.{
  Key, same_key, HealthTracker, is_tripped, is_rate_limited, FailoverCandidate, key_of, Sorted,
  place, place_all, joined, order_candidates, pop_key,
}
use guardian_llmprovider_gat.Failover.Breaker.{pop_key-at, same_key_iff}

-- A deadline that is not reached.
abbrev pub pending : ℕ → Option ℕ → Bool
pending now none = false
pending now (some until) = ltb now until

abbrev pub is_out : ℕ → HealthTracker → FailoverCandidate → Bool
is_out now t c = pending now (t.tripped_until (key_of c))

abbrev pub is_busy : ℕ → HealthTracker → FailoverCandidate → Bool
is_busy now t c = not (is_out now t c) && pending now (t.rate_limited_until (key_of c))

abbrev pub is_healthy : ℕ → HealthTracker → FailoverCandidate → Bool
is_healthy now t c = not (is_out now t c) && not (pending now (t.rate_limited_until (key_of c)))

-- The two trackers answer alike at a time.
record Alike (now : ℕ) (t u : HealthTracker) : Type 0 where
  trips : (k : Key) → pending now (u.tripped_until k) ≡ pending now (t.tripped_until k)
  limits : (k : Key) → pending now (u.rate_limited_until k) ≡ pending now (t.rate_limited_until k)

-- To forget a deadline that has been reached changes no answer.
pop-pending :
    (now until : ℕ) (j k : Key) (d : Key → Option ℕ)
    → d j ≡ some until
    → leb until now ≡ true
    → pending now (pop_key j d k) ≡ pending now (d k)
pop-pending now until j k d p h = elim (Bool-cases (same_key j k)) [
  | inl e ↦
      let held : d k ≡ some until = subst (λ i. d i ≡ some until) (same_key_iff j k e) p in
      rw (pop_key-at j k d, e, held) (ground arith)
  | inr e ↦ rw (pop_key-at j k d, e) refl
]

is_tripped-Alike :
    (now : ℕ) (k : Key) (t : HealthTracker)
    → ((is_tripped now k t).0 ≡ pending now (t.tripped_until k))
      × Alike now t (is_tripped now k t).1
unfolding is_tripped
is_tripped-Alike now k t = elim (Option-cases (t.tripped_until k)) [
  | inl p ↦ (
    rw (is_tripped, p) refl,
    rw (is_tripped, p) (record { trips = λ j. refl; limits = λ j. refl }),
  )
  | inr (u, p) ↦ elim (Bool-cases (leb u now)) [
    | inl h ↦ (
      rw (is_tripped, p, h) (ground arith),
      rw (is_tripped, p, h)
          (record { trips = λ j. pop-pending now u k j t.tripped_until p h; limits = λ j. refl }),
    )
    | inr h ↦ (
      rw (is_tripped, p, h) (ground arith),
      rw (is_tripped, p, h) (record { trips = λ j. refl; limits = λ j. refl }),
    )
  ]
]

is_rate_limited-Alike :
    (now : ℕ) (k : Key) (t : HealthTracker)
    → ((is_rate_limited now k t).0 ≡ pending now (t.rate_limited_until k))
      × Alike now t (is_rate_limited now k t).1
unfolding is_rate_limited
is_rate_limited-Alike now k t = elim (Option-cases (t.rate_limited_until k)) [
  | inl p ↦ (
    rw (is_rate_limited, p) refl,
    rw (is_rate_limited, p) (record { trips = λ j. refl; limits = λ j. refl }),
  )
  | inr (u, p) ↦ elim (Bool-cases (leb u now)) [
    | inl h ↦ (
      rw (is_rate_limited, p, h) (ground arith),
      rw (is_rate_limited, p, h)
          (record {
            trips = λ j. refl;
            limits = λ j. pop-pending now u k j t.rate_limited_until p h;
          }),
    )
    | inr h ↦ (
      rw (is_rate_limited, p, h) (ground arith),
      rw (is_rate_limited, p, h) (record { trips = λ j. refl; limits = λ j. refl }),
    )
  ]
]

Alike-trans : (now : ℕ) (t u v : HealthTracker) → Alike now t u → Alike now u v → Alike now t v
Alike-trans now t u v a b = record {
  trips = λ k. b.trips k ∙ a.trips k;
  limits = λ k. b.limits k ∙ a.limits k;
}

-- Where a candidate is put, by the answers of a tracker.
placed : ℕ → HealthTracker → FailoverCandidate → Sorted → Sorted
placed now t c s =
    if is_out now t c
    then record s { tripped = s.tripped ++ c ∷ [] }
    else if pending now (t.rate_limited_until (key_of c))
    then record s { rate_limited = s.rate_limited ++ c ∷ [] }
    else record s { healthy = s.healthy ++ c ∷ [] }

place-placed :
    (now : ℕ) (t u : HealthTracker) (c : FailoverCandidate) (s : Sorted)
    → Alike now t u
    → ((place now c (s, u)).0 ≡ placed now t c s) × Alike now t (place now c (s, u)).1
unfolding place placed
place-placed now t u c s a =
    let (x, al) = is_tripped-Alike now (key_of c) u in
    let u' = (is_tripped now (key_of c) u).1 in
    let (y, bl) = is_rate_limited-Alike now (key_of c) u' in
    let out : (is_tripped now (key_of c) u).0 ≡ is_out now t c = x ∙ a.trips (key_of c) in
    let busy : (is_rate_limited now (key_of c) u').0
        ≡ pending now (t.rate_limited_until (key_of c)) =
      y ∙ al.limits (key_of c) ∙ a.limits (key_of c) in
    let both = Alike-trans now t u u' a al in
    let all = Alike-trans now t u' _ both bl in
    elim (Bool-cases (is_out now t c)) [
      | inl o ↦ (rw (out, o) refl, rw (out, o) both)
      | inr o ↦ elim (Bool-cases (pending now (t.rate_limited_until (key_of c)))) [
        | inl b ↦ (rw (out, o, busy, b) refl, rw (out, o, busy, b) all)
        | inr b ↦ (rw (out, o, busy, b) refl, rw (out, o, busy, b) all)
      ]
    ]

sorted_by : ℕ → HealthTracker → List FailoverCandidate → Sorted → Sorted
sorted_by now t cs s = record {
  healthy = s.healthy ++ keep_if (is_healthy now t) cs;
  rate_limited = s.rate_limited ++ keep_if (is_busy now t) cs;
  tripped = s.tripped ++ keep_if (is_out now t) cs;
}

sorted_by-placed :
    (now : ℕ) (t : HealthTracker) (c : FailoverCandidate) (cs : List FailoverCandidate) (s : Sorted)
    → sorted_by now t cs (placed now t c s) ≡ sorted_by now t (c ∷ cs) s
unfolding sorted_by placed
sorted_by-placed now t c cs s =
    let end = keep_if (is_out now t) cs in
    let mid = keep_if (is_busy now t) cs in
    let first = keep_if (is_healthy now t) cs in
    elim (Bool-cases (is_out now t c)) [
      | inl o ↦ ground (arith, append_assoc s.tripped (c ∷ []) end)
      | inr o ↦ elim (Bool-cases (pending now (t.rate_limited_until (key_of c)))) [
        | inl b ↦ ground (arith, append_assoc s.rate_limited (c ∷ []) mid)
        | inr b ↦ ground (arith, append_assoc s.healthy (c ∷ []) first)
      ]
    ]

place_all-sorted_by :
    (now : ℕ) (t u : HealthTracker) (cs : List FailoverCandidate) (s : Sorted)
    → Alike now t u
    → (place_all now cs (s, u)).0 ≡ sorted_by now t cs s
unfolding place_all sorted_by
place_all-sorted_by now t u [] s a =
    rw (append_nil s.healthy, append_nil s.rate_limited, append_nil s.tripped) refl
place_all-sorted_by now t u (c ∷ cs) s a =
    let w = place now c (s, u) in
    let (e, al) = place-placed now t u c s a in
    place_all-sorted_by now t w.1 cs w.0 al
    ∙ ap (sorted_by now t cs) e
    ∙ sorted_by-placed now t c cs s

-- The candidates are tried in this order, whatever the state of the tracker: those that are neither
-- tripped nor rate limited at the time, then the rate limited ones, then the tripped ones, and within
-- each part in the order of the group.
pub order_candidates-sorted :
    (now : ℕ) (cs : List FailoverCandidate) (t : HealthTracker)
    → (order_candidates now cs t).0
      ≡ keep_if (is_healthy now t) cs ++ (keep_if (is_busy now t) cs ++ keep_if (is_out now t) cs)
unfolding order_candidates sorted_by
order_candidates-sorted now cs t =
    let start : Sorted = record { healthy = []; rate_limited = []; tripped = [] } in
    ap joined
      (place_all-sorted_by now t t cs start (record { trips = λ k. refl; limits = λ k. refl }))
