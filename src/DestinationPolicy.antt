-- ===== src/DestinationPolicy.antt =====
-- app/destination_policy.py: the allowlist of outbound destinations and its checks. The splitter of URLs,
-- the parser of IP addresses, `str.lower` and the answer of the resolver are parameters.
use Prim.Native.Char.{code}
use guardian_llmprovider_gat.Prelude.{
  ℕ, Bool, true, false, not, ◌&&◌, ◌||◌, Option, none, some, List, [], ◌∷◌, ◌++◌, ◌==◌,
  if◌then◌else◌, String, any, contains, codes, strip, str_eq, Result, ok, err, ◌>>=◌, ◌>>◌, guard,
  or_raise,
}
mod Checks
mod Structured
mod Required
mod Approved
mod Outcome
mod Tests

pub data DenyReason : Type 0 where
  policy_unavailable scheme_not_allowed userinfo_not_allowed host_not_allowed : DenyReason
  port_not_allowed loopback_not_approved link_local_not_approved : DenyReason
  private_network_not_approved metadata_host_blocked dns_resolution_failed : DenyReason
  dns_address_not_allowed credential_foreign_destination credential_without_owner : DenyReason
  redirect_not_allowed : DenyReason

-- An address of `ipaddress`, with its text.
pub record Address : Type 0 where
  pub shown : String
  pub is_loopback : Bool
  pub is_link_local : Bool
  pub is_multicast : Bool
  pub is_reserved : Bool
  pub is_unspecified : Bool
  pub is_private : Bool

pub data Port : Type 0 where
  absent invalid : Port
  given : ℕ → Port

-- The parts of a URL, "" where there is none; its port may be invalid.
pub record SplitUrl : Type 0 where
  pub scheme : String
  pub username : String
  pub password : String
  pub netloc : String
  pub hostname : String
  pub port : Port

pub record Library : Type 0 where
  pub urlsplit : String → Option SplitUrl
  pub ip_address : String → Option Address
  pub lower : String → String

pub data AddressClass : Type 0 where
  metadata loopback link_local reserved private public : AddressClass

abbrev pub metadata_addresses : List String
metadata_addresses =
    "169.254.169.254" ∷ "169.254.169.253" ∷ "169.254.170.2" ∷ "100.100.100.200" ∷ "fd00:ec2::254"
    ∷ []

unfoldable pub classify_address : Address → AddressClass
classify_address a =
    if contains a.shown metadata_addresses
    then metadata
    else if a.is_loopback
    then loopback
    else if a.is_link_local
    then link_local
    else if a.is_multicast || a.is_reserved || a.is_unspecified
    then reserved
    else if a.is_private
    then private
    else public

pub record AllowEntry : Type 0 where
  pub host : String
  pub ports : List ℕ
  pub addresses : List String

pub record Destination : Type 0 where
  pub url : String
  pub scheme : String
  pub host : String
  pub port : ℕ
  pub addresses : List String

-- The schemes are among "http" and "https", which `from_config` sees to.
pub record DestinationPolicy : Type 0 where
  pub entries : List AllowEntry
  pub schemes : List String
  pub owners : List (String × List (String × ℕ))
  pub closed : Bool

-- The first declaration of a host wins.
unfoldable pub by_host : String → List AllowEntry → Option AllowEntry
by_host host [] = none
by_host host (e ∷ es) = if str_eq e.host host then some e else by_host host es

unfoldable pub rstrip_dot : String → String
rstrip_dot String.[] = ""
rstrip_dot (String.◌∷◌ c s) =
    let rest = rstrip_dot s in if str_eq rest "" && code c == b'.' then "" else String.◌∷◌ c rest

unfoldable pub split_host_port : Library → String → String
unfolding rstrip_dot
split_host_port lib host = rstrip_dot (lib.lower (strip host))

abbrev pub default_port : (scheme : String) → ℕ
default_port scheme = if str_eq scheme "https" then 443 else 80

abbrev pub port_of : (scheme : String) → Port → Result DenyReason ℕ
port_of scheme absent = ok (default_port scheme)
port_of scheme (given n) = ok n
port_of scheme invalid = err port_not_allowed

abbrev pub has_userinfo : SplitUrl → Bool
has_userinfo parts =
    not (str_eq parts.username "")
    || not (str_eq parts.password "")
    || any (λ c. c == b'@') (codes parts.netloc)

abbrev pub is_metadata : AddressClass → Bool
is_metadata metadata = true
is_metadata _ = false

abbrev pub is_public : AddressClass → Bool
is_public public = true
is_public _ = false

abbrev pub class_missing_reason : AddressClass → DenyReason
class_missing_reason loopback = loopback_not_approved
class_missing_reason link_local = link_local_not_approved
class_missing_reason private = private_network_not_approved
class_missing_reason reserved = private_network_not_approved
class_missing_reason _ = host_not_allowed

abbrev pub is_found : Option AllowEntry → Bool
is_found none = false
is_found (some e) = true

abbrev pub check_literal : Option Address → Option AllowEntry → Result DenyReason (Unit {0})
check_literal none entry = ok tt
check_literal (some a) entry =
    guard (not (is_metadata (classify_address a))) metadata_host_blocked
    >> guard (is_found entry) (class_missing_reason (classify_address a))

abbrev pub literal_addresses : Option Address → (host : String) → List String
literal_addresses none host = []
literal_addresses (some a) host = host ∷ []

abbrev pub check_host :
    Library
    → DestinationPolicy
    → (url scheme host : String) → (port : ℕ) → Result DenyReason Destination
check_host lib p url scheme host port =
    check_literal (lib.ip_address host) (by_host host p.entries)
    >> (or_raise (by_host host p.entries) host_not_allowed >>= λ entry.
        guard (any (λ n. n == port) entry.ports) port_not_allowed
        >> ok (record {
          url = url;
          scheme = scheme;
          host = host;
          port = port;
          addresses = literal_addresses (lib.ip_address host) host;
        }))

abbrev pub check_parts :
    Library → DestinationPolicy → (url : String) → SplitUrl → Result DenyReason Destination
check_parts lib p url parts =
    let scheme = lib.lower parts.scheme in
    let host = split_host_port lib parts.hostname in
    guard (contains scheme p.schemes) scheme_not_allowed
    >> guard (not (has_userinfo parts)) userinfo_not_allowed
    >> guard (not (str_eq host "")) host_not_allowed
    >> (port_of scheme parts.port >>= λ port. check_host lib p url scheme host port)

unfoldable pub check_structure :
    Library → DestinationPolicy → (url : String) → Result DenyReason Destination
check_structure lib p url =
    guard (not p.closed) policy_unavailable
    >> (or_raise (lib.urlsplit url) host_not_allowed >>= λ parts. check_parts lib p url parts)
