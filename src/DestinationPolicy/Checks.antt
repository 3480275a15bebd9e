-- ===== src/DestinationPolicy/Checks.antt =====
-- app/destination_policy.py: the check of a request, with its credential and the answer of the resolver.
use guardian_llmprovider_gat.Prelude.{
  ℕ, suc, Bool, true, false, not, ◌&&◌, Option, none, some, List, [], ◌∷◌, ◌++◌, ◌==◌,
  if◌then◌else◌, String, any, contains, str_eq, Result, ok, err, ◌>>=◌, ◌>>◌, guard, or_raise,
}
use guardian_llmprovider_gat.Dict.{lookup}
use guardian_llmprovider_gat.DestinationPolicy.{
  DenyReason, host_not_allowed, redirect_not_allowed, credential_without_owner,
  metadata_host_blocked, credential_foreign_destination, dns_resolution_failed,
  dns_address_not_allowed, Address, Port, given, SplitUrl, Library, classify_address, is_metadata,
  is_public, AllowEntry, Destination, DestinationPolicy, by_host, split_host_port, check_structure,
}

pub record Request : Type 0 where
  pub url : String
  pub owner : Option String
  pub has_credential : Bool
  pub redirect_from : Option String

abbrev pub known_port : (scheme : String) → Option ℕ
known_port scheme =
    if str_eq scheme "http" then some 80 else if str_eq scheme "https" then some 443 else none

abbrev pub port_or : Port → Option ℕ → Option ℕ
port_or (given (suc n)) default = some (suc n)
port_or _ default = default

unfoldable pub same_optional_port : Option ℕ → Option ℕ → Bool
same_optional_port none none = true
same_optional_port (some a) (some b) = a == b
same_optional_port _ _ = false

unfoldable pub same_origin_parts : Library → SplitUrl → SplitUrl → Bool
unfolding same_optional_port
same_origin_parts lib a b =
    let scheme = lib.lower a.scheme in
    let other = lib.lower b.scheme in
    str_eq scheme other
    && str_eq (split_host_port lib a.hostname) (split_host_port lib b.hostname)
    && same_optional_port (port_or a.port (known_port scheme)) (port_or b.port (known_port other))

abbrev pub same_origin_split : Library → Option SplitUrl → Option SplitUrl → Bool
same_origin_split lib (some a) (some b) = same_origin_parts lib a b
same_origin_split lib _ _ = false

unfoldable pub same_origin : Library → (first second : String) → Bool
same_origin lib first second = same_origin_split lib (lib.urlsplit first) (lib.urlsplit second)

abbrev pub check_redirect : Library → Request → Result DenyReason (Unit {0})
check_redirect lib r = elim r.redirect_from [
  | none ↦ ok tt
  | some source ↦ guard (same_origin lib source r.url) redirect_not_allowed
]

abbrev pub listed : Option (List (String × ℕ)) → (host : String) → (port : ℕ) → Bool
listed none host port = false
listed (some pairs) host port = any (λ pair. str_eq pair.0 host && pair.1 == port) pairs

unfoldable pub owner_allows : Library → DestinationPolicy → (owner : String) → Destination → Bool
owner_allows lib p owner d = listed (lookup (lib.lower owner) p.owners) d.host d.port

-- A credential may only travel to its own provider's destinations.
abbrev pub check_credential :
    Library
    → DestinationPolicy
    → (owner : Option String) → Destination
    → Result DenyReason (Unit {0})
check_credential lib p none d = err credential_without_owner
check_credential lib p (some owner) d =
    guard (not (str_eq owner "")) credential_without_owner
    >> guard (owner_allows lib p owner d) credential_foreign_destination

abbrev pub check_if : Bool → Result DenyReason (Unit {0}) → Result DenyReason (Unit {0})
check_if b m = if b then m else ok tt

abbrev pub is_empty : List String → Bool
is_empty [] = true
is_empty (a ∷ rest) = false

abbrev pub answer_allowed : AllowEntry → Address → Bool
answer_allowed entry a =
    if is_empty entry.addresses
    then is_public (classify_address a)
    else contains a.shown entry.addresses

unfoldable pub check_address :
    Library → AllowEntry → (address : String) → Result DenyReason (Unit {0})
check_address lib entry address =
    or_raise (lib.ip_address address) dns_address_not_allowed >>= λ parsed.
    guard (not (is_metadata (classify_address parsed))) metadata_host_blocked
    >> guard (answer_allowed entry parsed) dns_address_not_allowed

unfoldable pub validate_addresses :
    Library → AllowEntry → (addresses validated : List String) → Result DenyReason (List String)
validate_addresses lib entry [] validated = ok validated
validate_addresses lib entry (a ∷ more) validated =
    let rest =
      validate_addresses lib entry more
        (if contains a validated then validated else validated ++ a ∷ []) in
    check_address lib entry a >> rest

-- The answer of the resolver is `none` if it raises.
abbrev pub resolved :
    Library
    → AllowEntry
    → (answer : Option (List String)) → Destination
    → Result DenyReason Destination
resolved lib entry answer d = or_raise answer dns_resolution_failed >>= λ addresses.
    guard (not (is_empty addresses)) dns_resolution_failed
    >> (validate_addresses lib entry addresses [] >>= λ validated.
        ok (record d { addresses = validated }))

-- A host that is approved has an entry, so the lookup of the entry never fails.
abbrev pub connected :
    Library
    → DestinationPolicy
    → (answer : Option (List String)) → Destination
    → Result DenyReason Destination
connected lib p answer d =
    if not (is_empty d.addresses)
    then ok d
    else or_raise (by_host d.host p.entries) host_not_allowed >>= λ entry.
        resolved lib entry answer d

unfoldable pub check :
    Library
    → DestinationPolicy
    → Request
    → (answer : Option (List String)) → Result DenyReason Destination
check lib p r answer = check_structure lib p r.url >>= λ d.
    check_redirect lib r
    >> check_if r.has_credential (check_credential lib p r.owner d)
    >> connected lib p answer d
