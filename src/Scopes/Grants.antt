-- ===== src/Scopes/Grants.antt =====
-- app/proxy/scopes.py: proofs about `expand_scopes` and `authorize_key`.
use guardian_llmprovider_gat.Prelude.{
  ℕ, String, ◌≡◌, ◌≢◌, ◌↔◌, ◌⊎◌, inl, inr, refl, Bool-cases, if◌then◌else◌, Bool, true, false, ◌&&◌,
  Option, none, some, arith,
}
use guardian_llmprovider_gat.Value.{Value, Fields, get, is_null}
use guardian_llmprovider_gat.Scopes.{
  Scope, public, client, operator, admin, capture_export, ScopeSet, implied_scopes, expand_scopes,
  all_key_scopes, Declared, absent, scopes, invalid, malformed, parse_declared, metadata_of, Stamp,
  authorize_key, resolve_key_scopes, scopes_of, grace_window_open,
}

-- s is granted by some scope of the set.
abbrev pub ImpliedBy : ScopeSet → Scope → Type 0
ImpliedBy set s = (t : Scope) × (set t ≡ true) × (implied_scopes t s ≡ true)

implied-by : (set : ScopeSet) (s t : Scope) → (set t && implied_scopes t s) ≡ true → ImpliedBy set s
implied-by set s t h = (t, ground arith, ground arith)

expand-ImpliedBy : (set : ScopeSet) (s : Scope) → expand_scopes set s ≡ true → ImpliedBy set s
unfolding expand_scopes
expand-ImpliedBy set s h = elim (Bool-cases (set public && implied_scopes public s)) [
  | inl e ↦ implied-by set s public e
  | inr a ↦ elim (Bool-cases (set client && implied_scopes client s)) [
    | inl e ↦ implied-by set s client e
    | inr b ↦ elim (Bool-cases (set operator && implied_scopes operator s)) [
      | inl e ↦ implied-by set s operator e
      | inr c ↦ elim (Bool-cases (set admin && implied_scopes admin s)) [
        | inl e ↦ implied-by set s admin e
        | inr d ↦ implied-by set s capture_export (ground arith)
      ]
    ]
  ]
]

ImpliedBy-expand :
    (set : ScopeSet) (s t : Scope)
    → set t ≡ true
    → implied_scopes t s ≡ true
    → expand_scopes set s ≡ true
unfolding expand_scopes
ImpliedBy-expand set s public a b = ground arith
ImpliedBy-expand set s _ a b = ground arith

-- The expansion of a set holds exactly what the scopes of the set imply.
pub expand_scopes_iff :
    (set : ScopeSet) (s : Scope) → (expand_scopes set s ≡ true) ↔ ImpliedBy set s
expand_scopes_iff set s = (expand-ImpliedBy set s, λ h. ImpliedBy-expand set s h.0 h.1 h.2)

-- What a key entry declares, apart from how it is resolved.
abbrev pub declaration : Value → Declared
declaration entry = elim (get "scopes" (metadata_of entry)) [
  | none ↦ absent
  | some v ↦ if is_null v then malformed else parse_declared v
]

-- The three ways to a scope.
abbrev pub Entitled : Declared → Bool → Scope → Type 0
Entitled (scopes set) window s = ImpliedBy set s
Entitled absent window s = ((window ≡ true) × (s ≢ public)) ⊎ (s ≡ client)
Entitled _ window s = s ≡ client

all_key-scope : (s : Scope) → (all_key_scopes s ≡ true) ↔ (s ≢ public)
unfolding implied_scopes
all_key-scope public = (λ h e. cc, λ h. absurd (h refl))
all_key-scope _ = (λ h e. cc, λ h. refl)

client-scope : (s : Scope) → (implied_scopes client s ≡ true) ↔ (s ≡ client)
unfolding implied_scopes
client-scope public = (λ h. cc, λ h. cc)
client-scope _ = (λ h. ground arith, λ h. ground arith)

-- A key is let through to a scope exactly if it is entitled to it: by a scope that it declares and
-- that implies the one required; or, with no declaration at all, by the open grace window (any
-- scope but `public`); or because the required scope is `client` and the key declares no valid
-- list. A declaration that is null, no list, or has an unknown token entitles to `client` alone.
pub authorize_key_iff :
    (from_iso_format : String → Option Stamp) (config : Fields) (now : ℕ) (entry : Value)
    (required : Scope)
    → (authorize_key from_iso_format config now entry required ≡ true)
      ↔ Entitled (declaration entry) (grace_window_open from_iso_format config now) required
unfolding authorize_key resolve_key_scopes implied_scopes
authorize_key_iff iso config now entry s = go (declaration entry) (grace_window_open iso config now)
  where
    go : (d : Declared) (w : Bool) → ((scopes_of iso d w).granted s ≡ true) ↔ Entitled d w s
    go (scopes set) w = expand_scopes_iff set s
    go absent true = (
      λ h. inl (refl, (all_key-scope s).0 h),
      λ h. elim h [ inl x ↦ (all_key-scope s).1 x.1 | inr e ↦ rw e refl ],
    )
    go absent false = (
      λ h. inr ((client-scope s).0 h),
      λ h. elim h [ inl x ↦ absurd (cc x.0) | inr e ↦ (client-scope s).1 e ],
    )
    go (invalid vs) w = client-scope s
    go malformed w = client-scope s
