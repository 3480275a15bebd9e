-- ===== src/Scopes/Minting.antt =====
-- app/proxy/scopes.py: proofs about `mint_metadata`.
use guardian_llmprovider_gat.Prelude.{
  ℕ, String, ◌≡◌, ◌≢◌, inl, inr, refl, sym, ap, subst, ◌∙◌, Bool, true, false, not, ◌&&◌, Option,
  none, some, arith, Bool-cases, Result, ok, err,
}
use guardian_llmprovider_gat.Value.{Value, null, text, Fields, get, put, get-put, member, truthy}
use guardian_llmprovider_gat.Scopes.{
  Scope, public, client, operator, admin, capture_export, ScopeSet, absent, scopes, Stamp,
  KeyScopes, scopes_of, key_declaration, resolve_key_scopes, authorize_key, metadata_of,
  grace_window_open,
}
use guardian_llmprovider_gat.Scopes.Mint.{
  MintGrant, ScopeError, mint_metadata, key_entry, sorted_scopes, scoped_metadata, fields_of,
  minted_by, is_empty, cloud_access, is_invalid,
}
use guardian_llmprovider_gat.Scopes.Grants.{Entitled, declaration, authorize_key_iff}
use guardian_llmprovider_gat.Scopes.Names.{public_in, parse_declared-no_public}
use guardian_llmprovider_gat.Scopes.Envelope.{scoped-Envelope, Envelope-Entitled}

cloud_access-key_entry :
    (name : Value) (t : ℕ) (g : MintGrant)
    → cloud_access (key_entry name t g) ≡ g.cloud_gateway_access
unfolding key_entry cloud_access member get truthy
cloud_access-key_entry name t g = refl

module _ (iso : String → Option Stamp) where
  -- The metadata of a stored key.
  metadata_of-key_entry :
      (name : Value) (t : ℕ) (g : MintGrant) → metadata_of (key_entry name t g) ≡ g.metadata
  unfolding metadata_of key_entry member get
  metadata_of-key_entry name t g = refl

  stamped-scopes :
      (a b : Value) (fs : Fields)
      → get "scopes" (put "minted_via" a (put "minted_by" b fs)) ≡ get "scopes" fs
  stamped-scopes a b fs = ground (
    arith,
    get-put "minted_via" "scopes" a (put "minted_by" b fs),
    get-put "minted_by" "scopes" b fs,
  )

  mint-scoped :
      (config : Fields) (now : ℕ) (minter requested cloud : Value) (source : String) (g : MintGrant)
      → mint_metadata iso config now minter requested cloud source ≡ ok g
      → (m : Fields) × (scoped_metadata
            (resolve_key_scopes iso config now minter)
            (fields_of requested)
          ≡ ok m)
        × (is_invalid (resolve_key_scopes iso config now minter).mode ≡ false)
        × (get "scopes" g.metadata ≡ get "scopes" m)
        × (g.cloud_gateway_access ≡ cloud_access minter)
        × ((truthy cloud && not (cloud_access minter)) ≡ false)
  unfolding mint_metadata
  mint-scoped config now minter requested cloud source g h =
      go (scoped_metadata (resolve_key_scopes iso config now minter) (fields_of requested)) refl
    where
      K : KeyScopes
      K = resolve_key_scopes iso config now minter

      go :
          (r : Result ScopeError Fields)
          → scoped_metadata K (fields_of requested) ≡ r
          → (m : Fields) × (scoped_metadata K (fields_of requested) ≡ ok m)
            × (is_invalid K.mode ≡ false)
            × (get "scopes" g.metadata ≡ get "scopes" m)
            × (g.cloud_gateway_access ≡ cloud_access minter)
            × ((truthy cloud && not (cloud_access minter)) ≡ false)
      go (err x) e = absurd (ground (arith, e))
      go (ok m) e = (
        m,
        e,
        ground (arith, e),
        (let stamped : g.metadata
                ≡ put "minted_via" (text source) (put "minted_by" (minted_by minter) m) =
              ground (arith, e) in
            ap (get "scopes") stamped ∙ stamped-scopes (text source) (minted_by minter) m),
        ground (arith, e),
        ground (arith, e),
      )

  same_declaration :
      (a b : Fields)
      → get "scopes" a ≡ get "scopes" b
      → key_declaration iso a ≡ key_declaration iso b
  unfolding key_declaration
  same_declaration a b e = rw (e, key_declaration)

  key_declaration-no_public : (fs : Fields) → public_in (key_declaration iso fs) ≡ false
  unfolding key_declaration
  key_declaration-no_public fs = go (get "scopes" fs) refl
    where
      go : (o : Option Value) → get "scopes" fs ≡ o → public_in (key_declaration iso fs) ≡ false
      go none e = rw (e, key_declaration)
      go (some v) e = rw (e, key_declaration) (ground (arith, parse_declared-no_public v))

  resolve-declaration :
      (config : Fields) (now : ℕ) (entry : Value)
      → resolve_key_scopes iso config now entry
        ≡ scopes_of iso (key_declaration iso (metadata_of entry)) (grace_window_open iso config now)
  unfolding resolve_key_scopes
  resolve-declaration config now entry = refl

  declaration-key : (entry : Value) → declaration entry ≡ key_declaration iso (metadata_of entry)
  unfolding key_declaration
  declaration-key entry = refl

  minted-Entitled :
      (config : Fields) (now created : ℕ) (minter name requested cloud : Value) (source : String)
      (g : MintGrant) (w : Bool) (s : Scope)
      → ((D : ScopeSet) → declaration minter ≡ scopes D → is_empty (sorted_scopes D) ≡ false)
      → mint_metadata iso config now minter requested cloud source ≡ ok g
      → Entitled (declaration (key_entry name created g)) w s
      → Entitled (declaration minter) w s
  minted-Entitled config now created minter name requested cloud source g w s full h a =
      let d = key_declaration iso (metadata_of minter) in
      let r = resolve-declaration config now minter in
      let (m, e, i, q, c, k) = mint-scoped config now minter requested cloud source g h in
      let envelope =
        scoped-Envelope iso d (grace_window_open iso config now) (fields_of requested) m
          (key_declaration-no_public (metadata_of minter)) (rw r at i) (rw r at e) in
      let child : declaration (key_entry name created g) ≡ key_declaration iso m =
        declaration-key (key_entry name created g)
        ∙ ap (key_declaration iso) (metadata_of-key_entry name created g)
        ∙ same_declaration g.metadata m q in
      subst (λ x. Entitled x w s) (sym (declaration-key minter))
        (Envelope-Entitled iso d w m s (λ D x. full D (declaration-key minter ∙ x)) envelope
          (subst (λ x. Entitled x w s) child a))

-- A minted key stays inside the envelope of the key that minted it: whatever metadata and cloud
-- access are requested, at any later time and under any later configuration, a scope that the
-- stored key is granted is granted to its minter at that time too; and the stored key has cloud
-- access exactly if the minter has. The minter must not declare an empty list of scopes.
pub mint_metadata-within :
    (iso : String → Option Stamp) (config later_config : Fields) (now later created : ℕ)
    (minter name requested cloud : Value) (source : String) (g : MintGrant) (s : Scope)
    → ((D : ScopeSet) → declaration minter ≡ scopes D → is_empty (sorted_scopes D) ≡ false)
    → mint_metadata iso config now minter requested cloud source ≡ ok g
    → (authorize_key iso later_config later (key_entry name created g) s ≡ true
        → authorize_key iso later_config later minter s ≡ true)
      × (cloud_access (key_entry name created g) ≡ cloud_access minter)
mint_metadata-within iso config later_config now later created minter name requested cloud source g
      s full h =
    (
      λ a. (authorize_key_iff iso later_config later minter s).1 (
          minted-Entitled iso config now created minter name requested cloud source g
            (grace_window_open iso later_config later) s full h
            ((authorize_key_iff iso later_config later (key_entry name created g) s).0 a)),
      cloud_access-key_entry name created g
          ∙ (mint-scoped iso config now minter requested cloud source g h).4,
    )

key_declaration-end : (iso : String → Option Stamp) → key_declaration iso Fields.end ≡ absent
unfolding key_declaration get
key_declaration-end iso = refl

inherits-nothing :
    (iso : String → Option Stamp) (D : ScopeSet) (w : Bool) (m : Fields)
    → ((s : Scope) → D s ≡ false)
    → scoped_metadata (scopes_of iso (scopes D) w) Fields.end ≡ ok m
    → m ≡ Fields.end
unfolding scoped_metadata scopes_of get sorted_scopes
inherits-nothing iso D w m none_held h = ground (
  arith,
  none_held public,
  none_held client,
  none_held operator,
  none_held admin,
  none_held capture_export,
)

-- Without that condition the envelope does not hold: a minter that declares the empty list is
-- granted no scope at all, and a key that it mints with no metadata is a legacy key, which is
-- granted every scope but `public` while the grace window is open.
pub mint_metadata-empty :
    (iso : String → Option Stamp) (config later_config : Fields) (now later created : ℕ)
    (minter name cloud : Value) (source : String) (g : MintGrant) (D : ScopeSet) (s : Scope)
    → declaration minter ≡ scopes D
    → ((t : Scope) → D t ≡ false)
    → mint_metadata iso config now minter null cloud source ≡ ok g
    → grace_window_open iso later_config later ≡ true
    → s ≢ public
    → (authorize_key iso later_config later minter s ≡ false)
      × (authorize_key iso later_config later (key_entry name created g) s ≡ true)
unfolding fields_of
mint_metadata-empty iso config later_config now later created minter name cloud source g D s d
      none_held h w p =
    let r = resolve-declaration iso config now minter in
    let k = sym (declaration-key iso minter) ∙ d in
    let (m, e, i, q, c, b) = mint-scoped iso config now minter null cloud source g h in
    let bare = inherits-nothing iso D (grace_window_open iso config now) m none_held (
      subst
        (λ x.
          scoped_metadata (scopes_of iso x (grace_window_open iso config now)) Fields.end ≡ ok m)
        k (rw r at e)) in
    let window = grace_window_open iso later_config later in
    let child : declaration (key_entry name created g) ≡ absent =
      declaration-key iso (key_entry name created g)
      ∙ ap (key_declaration iso) (metadata_of-key_entry iso name created g)
      ∙ same_declaration iso g.metadata m q
      ∙ (ap (key_declaration iso) bare ∙ key_declaration-end iso) in
    (
      elim (Bool-cases (authorize_key iso later_config later minter s)) [
        | inl y ↦
            let held =
              subst (λ x. Entitled x window s) d
                ((authorize_key_iff iso later_config later minter s).0 y) in
            absurd (cc (held.1, none_held held.0))
        | inr y ↦ y
      ],
      (authorize_key_iff iso later_config later (key_entry name created g) s).1
          (subst (λ x. Entitled x window s) (sym child) (inl (w, p))),
    )
