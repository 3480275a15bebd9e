-- ===== src/Scopes/Mint.antt =====
-- app/proxy/scopes.py: `mint_metadata`, the grant of a key that is minted through the admin API, and
-- the entry that app/proxy/auth.py stores for it.
use guardian_llmprovider_gat.Prelude.{
  ℕ, String, Bool, true, false, not, ◌&&◌, Option, none, some, List, [], ◌∷◌, ◌++◌, if◌then◌else◌,
  Result, ok, err, ◌>>=◌, ◌>>◌, guard,
}
use guardian_llmprovider_gat.Value.{
  Value, bool, text, list, mapping, Items, nil, cons, Fields, field, get, put, member, or_null,
  is_null, is_mapping, truthy,
}
use guardian_llmprovider_gat.Scopes.{
  Scope, public, client, operator, admin, capture_export, ScopeSet, Declared, scopes,
  parse_declared, Mode, explicit, KeyScopes, resolve_key_scopes, Stamp,
}

pub data ScopeError : Type 0 where
  authorization_misconfigured invalid_scope cloud_escalation : ScopeError
  scope_escalation : List Scope → ScopeError

pub record MintGrant : Type 0 where
  pub metadata : Fields
  pub cloud_gateway_access : Bool

-- bool(minter_entry.get("cloud_gateway_access", True))
unfoldable pub cloud_access : Value → Bool
cloud_access entry = elim (member "cloud_gateway_access" entry) [ none ↦ true | some v ↦ truthy v ]

unfoldable pub scope_name : Scope → String
scope_name public = "public"
scope_name client = "client"
scope_name operator = "operator"
scope_name admin = "admin"
scope_name capture_export = "capture-export"

-- The scopes of a set in the order of their names.
unfoldable pub sorted_scopes : ScopeSet → List Scope
sorted_scopes s =
    (if s admin then admin ∷ [] else [])
    ++ ((if s capture_export then capture_export ∷ [] else [])
        ++ ((if s client then client ∷ [] else [])
            ++ ((if s operator then operator ∷ [] else [])
                ++ (if s public then public ∷ [] else []))))

unfoldable pub scope_items : List Scope → Items
unfolding scope_name
scope_items [] = nil
scope_items (s ∷ ss) = cons (text (scope_name s)) (scope_items ss)

unfoldable pub exceeding : ScopeSet → ScopeSet → List Scope
unfolding sorted_scopes
exceeding declared allowed = sorted_scopes (λ s. declared s && not (allowed s))

abbrev pub is_empty : List Scope → Bool
is_empty [] = true
is_empty (s ∷ ss) = false

-- What an explicitly scoped minter may hand out; any other minter holds no declared grant.
unfoldable pub allowed_scopes : KeyScopes → ScopeSet
allowed_scopes minter s = elim minter.mode [ explicit ↦ minter.granted s | _ ↦ false ]

unfoldable pub requested_scopes : KeyScopes → Declared → Fields → Result ScopeError Fields
unfolding exceeding allowed_scopes
requested_scopes minter (scopes declared) metadata = do
  let extra = exceeding declared (allowed_scopes minter)
  guard (is_empty extra) (scope_escalation extra)
  ok (put "scopes" (list (scope_items (sorted_scopes declared))) metadata)
requested_scopes minter _ metadata = err invalid_scope

-- `elif minter.declared`: an empty declaration is false, and nothing is inherited.
unfoldable pub inherited_scopes : Option ScopeSet → Fields → Fields
inherited_scopes none metadata = metadata
inherited_scopes (some declared) metadata =
    let names = sorted_scopes declared in
    if is_empty names then metadata else put "scopes" (list (scope_items names)) metadata

unfoldable pub scoped_metadata : KeyScopes → Fields → Result ScopeError Fields
unfolding requested_scopes inherited_scopes
scoped_metadata minter metadata =
    let requested = or_null (get "scopes" metadata) in
    if is_null requested
    then ok (inherited_scopes minter.declared metadata)
    else requested_scopes minter (parse_declared requested) metadata

-- dict(requested_metadata) if isinstance(requested_metadata, Mapping) else {}
unfoldable pub fields_of : Value → Fields
fields_of (mapping fs) = fs
fields_of _ = Fields.end

unfoldable pub is_invalid : Mode → Bool
is_invalid Mode.invalid = true
is_invalid _ = false

-- The name is kept as the entry holds it; the source writes its `str`.
unfoldable pub minted_by : Value → Value
minted_by entry =
    let name = or_null (member "name" entry) in if truthy name then name else text "unknown"

module _ (from_iso_format : String → Option Stamp) where
  unfoldable pub mint_metadata :
      Fields → ℕ → Value → Value → Value → String → Result ScopeError MintGrant
  unfolding scoped_metadata fields_of is_invalid minted_by
  mint_metadata config now minter_entry requested_metadata requested_cloud_access source = do
    guard (is_mapping minter_entry) authorization_misconfigured
    let minter = resolve_key_scopes from_iso_format config now minter_entry
    guard (not (is_invalid minter.mode)) authorization_misconfigured
    guard (not (truthy requested_cloud_access && not (cloud_access minter_entry))) cloud_escalation
    metadata ← scoped_metadata minter (fields_of requested_metadata)
    ok (record {
      metadata = put "minted_via" (text source) (put "minted_by" (minted_by minter_entry) metadata);
      cloud_gateway_access = cloud_access minter_entry;
    })

-- The entry that `generate_api_key` stores.
unfoldable pub key_entry : Value → ℕ → MintGrant → Value
key_entry name created_at grant = mapping (
    field "name" name (
      field "created_at" (Value.aware created_at) (
        field "metadata" (mapping grant.metadata)
          (field "cloud_gateway_access" (bool grant.cloud_gateway_access) Fields.end))))
