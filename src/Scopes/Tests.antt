-- ===== src/Scopes/Tests.antt =====
-- The theorems about scopes at concrete inputs.
use guardian_llmprovider_gat.Prelude.{
  Bool, [], ◌∷◌, same_codes, sym, ap, String, ◌≡◌, ◌↔◌, refl, true, false, Option, none, some,
  strip, lowers_to, ok, err,
}
use guardian_llmprovider_gat.Value.{
  Value, null, text, list, mapping, cons, nil, Fields, field, get, put, member, truthy,
}
use guardian_llmprovider_gat.Scopes.{
  Scope, Declared, client, operator, admin, Stamp, zoned, authorize_key, grace_window_open,
  configured_enforced_after, resolve_key_scopes, parse_declared, scopes, expand_scopes, metadata_of,
}
use guardian_llmprovider_gat.Scopes.Routes.{required_scope_for}
use guardian_llmprovider_gat.Scopes.Mint.{
  MintGrant, is_empty, mint_metadata, key_entry, scope_escalation, cloud_access, sorted_scopes,
  scope_items, scope_name,
}
use guardian_llmprovider_gat.Scopes.Grants.{authorize_key_iff, Entitled, declaration}
use guardian_llmprovider_gat.Scopes.Minting.{mint_metadata-within, mint_metadata-empty}

-- A clock of the tests: every text stands for one instant.
abbrev at_1000 : String → Option Stamp
at_1000 s = some (zoned 1000)

abbrev entry_with : Value → Value
entry_with declared = mapping (
    field "name" (text "ops")
      (field "metadata" (mapping (field "scopes" declared Fields.end)) Fields.end))

abbrev operators : Value
operators = entry_with (list (cons (text " Operator ") nil))

abbrev legacy : Value
legacy = mapping (field "name" (text "old") Fields.end)

routes :
    (required_scope_for (some "head") (some "/v1/models") ≡ some client)
    × (required_scope_for (some "POST") (some "/api/keys") ≡ some admin)
    × (required_scope_for (some "PUT") (some "/api/keys") ≡ none)
unfolding required_scope_for same_codes
routes = (refl, refl, refl)

-- The names that a run of the model computes with.
decisions : Scope → Value → Bool
unfolding authorize_key resolve_key_scopes metadata_of member get parse_declared expand_scopes
    grace_window_open configured_enforced_after strip lowers_to mint_metadata cloud_access truthy
    put key_entry sorted_scopes scope_items scope_name
decisions s entry = authorize_key at_1000 Fields.end 999 entry s

operator_decisions :
    (decisions operator operators ≡ true)
    × (decisions client operators ≡ true)
    × (decisions admin operators ≡ false)
    × (decisions admin legacy ≡ true)
    × (decisions admin (entry_with null) ≡ false)
unfolding decisions
operator_decisions = (refl, refl, refl, refl, refl)

authorize_key_iff_example :
    (authorize_key at_1000 Fields.end 999 operators admin ≡ true)
    ↔ Entitled (declaration operators) (grace_window_open at_1000 Fields.end 999) admin
authorize_key_iff_example = authorize_key_iff at_1000 Fields.end 999 operators admin

only_operator : Scope → Bool
only_operator operator = true
only_operator _ = false

abbrev operator_grant : MintGrant
operator_grant = record {
  metadata =
      field "scopes" (list (cons (text "operator") nil))
        (field "minted_by" (text "ops") (field "minted_via" (text "api") Fields.end));
  cloud_gateway_access = true;
}

operator_mints : mint_metadata at_1000 Fields.end 999 operators null null "api" ≡ ok operator_grant
unfolding decisions
operator_mints = refl

operator_cannot_mint_admin :
    mint_metadata at_1000 Fields.end 999 operators
      (mapping (field "scopes" (list (cons (text "admin") nil)) Fields.end))
      null
      "api"
    ≡ err (scope_escalation (admin ∷ []))
unfolding decisions
operator_cannot_mint_admin = refl

abbrev declares_nothing : Declared → Bool
declares_nothing (scopes set) = is_empty (sorted_scopes set)
declares_nothing _ = false

operators_declare :
    (set : Scope → Bool) → declaration operators ≡ scopes set → is_empty (sorted_scopes set) ≡ false
unfolding decisions
operators_declare set e = sym (ap declares_nothing e)

mint_metadata-within_example :
    (authorize_key at_1000 Fields.end 2000 (key_entry (text "child") 999 operator_grant) admin
        ≡ true
      → authorize_key at_1000 Fields.end 2000 operators admin ≡ true)
    × (cloud_access (key_entry (text "child") 999 operator_grant) ≡ cloud_access operators)
mint_metadata-within_example =
    mint_metadata-within at_1000 Fields.end Fields.end 999 2000 999 operators (text "child") null
      null "api" operator_grant admin operators_declare operator_mints

abbrev unscoped_grant : MintGrant
unscoped_grant = record {
  metadata = field "minted_by" (text "ops") (field "minted_via" (text "api") Fields.end);
  cloud_gateway_access = true;
}

mint_metadata-empty_example :
    (authorize_key at_1000 Fields.end 999 (entry_with (list nil)) admin ≡ false)
    × (authorize_key at_1000 Fields.end 999 (key_entry (text "child") 998 unscoped_grant) admin
        ≡ true)
unfolding decisions
mint_metadata-empty_example =
    mint_metadata-empty at_1000 Fields.end Fields.end 998 999 998 (entry_with (list nil))
      (text "child") null "api" unscoped_grant (λ _. false) admin refl (λ t. refl) refl refl
      (λ e. cc)
