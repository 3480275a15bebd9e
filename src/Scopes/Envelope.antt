-- ===== src/Scopes/Envelope.antt =====
-- app/proxy/scopes.py: lemmas on what a minted key declares, against what its minter declares.
use guardian_llmprovider_gat.Prelude.{
  String, ◌≡◌, ◌⊎◌, inl, inr, refl, sym, subst, Bool, true, false, not, ◌&&◌, Option, none, some,
  arith, Bool-cases, ok,
}
use guardian_llmprovider_gat.Value.{Value, list, Fields, get, put, get-put, or_null, is_null}
use guardian_llmprovider_gat.Scopes.{
  Scope, public, ScopeSet, parse_declared, Declared, absent, scopes, Stamp, implied_scopes,
  scopes_of, key_declaration, invalid, malformed,
}
use guardian_llmprovider_gat.Scopes.Mint.{
  scope_items, sorted_scopes, exceeding, allowed_scopes, requested_scopes, inherited_scopes,
  scoped_metadata, is_empty, is_invalid,
}
use guardian_llmprovider_gat.Scopes.Grants.{expand_scopes_iff, ImpliedBy, Entitled}
use guardian_llmprovider_gat.Scopes.Names.{
  public_in, sorted-empty, parse_declared-no_public, parse_declared-scope_items,
}

implied_refl : (s : Scope) → implied_scopes s s ≡ true
unfolding implied_scopes
implied_refl public = refl
implied_refl _ = refl

pub implied_trans :
    (u t s : Scope)
    → implied_scopes u t ≡ true
    → implied_scopes t s ≡ true
    → implied_scopes u s ≡ true
unfolding implied_scopes
implied_trans u t s a b = ground arith

-- What the metadata of a minted key says of scopes, for a minter that declares `d`: a list that the
-- minter's declaration implies, or nothing, if the minter declares nothing either or an empty list.
abbrev pub Envelope : Declared → Fields → Type 0
Envelope d metadata =
    ((set : ScopeSet) × (set public ≡ false)
      × (get "scopes" metadata ≡ some (list (scope_items (sorted_scopes set))))
      × ((s : Scope) → set s ≡ true → (D : ScopeSet) × (d ≡ scopes D) × ImpliedBy D s))
    ⊎ ((is_null (or_null (get "scopes" metadata)) ≡ true)
        × ((d ≡ absent) ⊎ ((D : ScopeSet) × (d ≡ scopes D) × (is_empty (sorted_scopes D) ≡ true))))

get-scopes : (v : Value) (fs : Fields) → get "scopes" (put "scopes" v fs) ≡ some v
get-scopes v fs = ground (arith, get-put "scopes" "scopes" v fs)

module _ (iso : String → Option Stamp) where
  inherited-Envelope :
      (d : Declared) (w : Bool) (fs : Fields)
      → public_in d ≡ false
      → is_invalid (scopes_of iso d w).mode ≡ false
      → is_null (or_null (get "scopes" fs)) ≡ true
      → Envelope d (inherited_scopes (scopes_of iso d w).declared fs)
  unfolding scopes_of inherited_scopes is_invalid
  inherited-Envelope absent true fs p i n = inr (n, inl refl)
  inherited-Envelope absent false fs p i n = inr (n, inl refl)
  inherited-Envelope (invalid vs) w fs p i n = absurd (cc i)
  inherited-Envelope malformed w fs p i n = absurd (cc i)
  inherited-Envelope (scopes D) w fs p i n = elim (Bool-cases (is_empty (sorted_scopes D))) [
    | inl e ↦ rw e (inr (n, inr (D, refl, e)))
    | inr e ↦ rw e (
        inl (
          D,
          p,
          get-scopes (list (scope_items (sorted_scopes D))) fs,
          λ s h. (D, refl, (s, h, implied_refl s)),
        ))
  ]

  allowed-Envelope :
      (d : Declared) (w : Bool) (s : Scope)
      → is_invalid (scopes_of iso d w).mode ≡ false
      → allowed_scopes (scopes_of iso d w) s ≡ true
      → (D : ScopeSet) × (d ≡ scopes D) × ImpliedBy D s
  unfolding scopes_of allowed_scopes is_invalid
  allowed-Envelope absent true s i h = absurd (cc h)
  allowed-Envelope absent false s i h = absurd (cc h)
  allowed-Envelope (invalid vs) w s i h = absurd (cc h)
  allowed-Envelope malformed w s i h = absurd (cc h)
  allowed-Envelope (scopes D) w s i h = (D, refl, (expand_scopes_iff D s).0 h)

  requested-Envelope :
      (d r : Declared) (w : Bool) (fs m : Fields)
      → public_in r ≡ false
      → is_invalid (scopes_of iso d w).mode ≡ false
      → requested_scopes (scopes_of iso d w) r fs ≡ ok m
      → Envelope d m
  unfolding requested_scopes exceeding
  requested-Envelope d (scopes R) w fs m p i h =
      let extra = λ (s : Scope). R s && not (allowed_scopes (scopes_of iso d w) s) in
      elim (Bool-cases (is_empty (sorted_scopes extra))) [
        | inr e ↦ absurd (ground arith)
        | inl e ↦ inl (
          R,
          p,
          subst (λ x. get "scopes" x ≡ some (list (scope_items (sorted_scopes R))))
              (ground (arith, e)) (get-scopes (list (scope_items (sorted_scopes R))) fs),
          λ s x. allowed-Envelope d w s i (ground (arith, sorted-empty extra s e)),
        )
      ]
  requested-Envelope d absent w fs m p i h = cc
  requested-Envelope d (invalid vs) w fs m p i h = cc
  requested-Envelope d malformed w fs m p i h = cc

  pub scoped-Envelope :
      (d : Declared) (w : Bool) (fs m : Fields)
      → public_in d ≡ false
      → is_invalid (scopes_of iso d w).mode ≡ false
      → scoped_metadata (scopes_of iso d w) fs ≡ ok m
      → Envelope d m
  unfolding scoped_metadata
  scoped-Envelope d w fs m p i h = elim (Bool-cases (is_null (or_null (get "scopes" fs)))) [
    | inl n ↦ subst (Envelope d) (ground (arith, n)) (inherited-Envelope d w fs p i n)
    | inr n ↦
        requested-Envelope d (parse_declared (or_null (get "scopes" fs))) w fs m
          (parse_declared-no_public (or_null (get "scopes" fs))) i (ground (arith, n))
  ]

  -- Within the envelope, the child is entitled to nothing that its minter is not.
  pub Envelope-Entitled :
      (d : Declared) (w : Bool) (m : Fields) (s : Scope)
      → ((D : ScopeSet) → d ≡ scopes D → is_empty (sorted_scopes D) ≡ false)
      → Envelope d m
      → Entitled (key_declaration iso m) w s
      → Entitled d w s
  unfolding key_declaration
  Envelope-Entitled d w m s full (inl (R, p, g, sub)) h =
      let stored : key_declaration iso m ≡ scopes R =
        rw (g, key_declaration) (parse_declared-scope_items R p) in
      let (t, x, y) = subst (λ k. Entitled k w s) stored h in
      let (D, a, b) = sub t x in
      subst (λ k. Entitled k w s) (sym a) (b.0, b.1, implied_trans b.0 t s b.2 y)
  Envelope-Entitled d w m s full (inr (n, inl a)) h =
      subst (λ k. Entitled k w s) (sym a) (go (get "scopes" m) refl)
    where
      go : (o : Option Value) → get "scopes" m ≡ o → Entitled absent w s
      go none e =
          let nothing : key_declaration iso m ≡ absent = rw (e, key_declaration) in
          subst (λ k. Entitled k w s) nothing h
      go (some v) e =
          let v_null : is_null v ≡ true = ground (arith, e) in
          let broken : key_declaration iso m ≡ malformed = rw (e, key_declaration, v_null) in
          inr (subst (λ k. Entitled k w s) broken h)
  Envelope-Entitled d w m s full (inr (n, inr (D, a, e))) h = absurd (cc (full D a))
