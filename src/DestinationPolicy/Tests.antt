-- ===== src/DestinationPolicy/Tests.antt =====
-- app/destination_policy.py: runs on small inputs, and the theorem applied to them.
use guardian_llmprovider_gat.Prelude.{
  ◌≡◌, ◌⊎◌, refl, true, false, Option, none, some, [], ◌∷◌, if◌then◌else◌, String, str_eq, strip,
  ok, err,
}
use guardian_llmprovider_gat.Dict.{lookup}
use guardian_llmprovider_gat.DestinationPolicy.{
  DenyReason, metadata_host_blocked, credential_foreign_destination, dns_address_not_allowed,
  Address, absent, SplitUrl, Library, classify_address, Destination, DestinationPolicy, by_host,
  rstrip_dot, split_host_port, check_structure,
}
use guardian_llmprovider_gat.DestinationPolicy.Checks.{
  Request, owner_allows, check_address, validate_addresses, check,
}
use guardian_llmprovider_gat.DestinationPolicy.Approved.{IsApproved}
use guardian_llmprovider_gat.DestinationPolicy.Required.{Meets, IsMadeOf}
use guardian_llmprovider_gat.DestinationPolicy.Outcome.{check-outcome}

abbrev address : String → Address
address shown = record {
  shown = shown;
  is_loopback = false;
  is_link_local = false;
  is_multicast = false;
  is_reserved = false;
  is_unspecified = false;
  is_private = str_eq shown "10.0.0.1";
}

abbrev parse_address : String → Option Address
parse_address s = if str_eq s "api.test" then none else some (address s)

abbrev split_url : String → Option SplitUrl
split_url s = some (record {
  scheme = "https";
  username = "";
  password = "";
  netloc = "api.test";
  hostname = "api.test";
  port = absent;
})

abbrev sample : Library
sample = record { urlsplit = split_url; ip_address = parse_address; lower = λ s. s }

abbrev policy : DestinationPolicy
policy = record {
  entries = record { host = "api.test"; ports = 443 ∷ []; addresses = [] } ∷ [];
  schemes = "http" ∷ "https" ∷ [];
  owners = ("acme", ("api.test", 443) ∷ []) ∷ [];
  closed = false;
}

abbrev from_owner : String → Request
from_owner owner = record {
  url = "https://api.test/v1";
  owner = some owner;
  has_credential = true;
  redirect_from = none;
}

abbrev approved : Destination
approved = record {
  url = "https://api.test/v1";
  scheme = "https";
  host = "api.test";
  port = 443;
  addresses = "93.184.216.34" ∷ [];
}

decided :
    (check sample policy (from_owner "acme") (some ("93.184.216.34" ∷ [])) ≡ ok approved)
    × (check sample policy (from_owner "acme") (some ("169.254.169.254" ∷ []))
        ≡ err metadata_host_blocked)
    × (check sample policy (from_owner "acme") (some ("10.0.0.1" ∷ []))
        ≡ err dns_address_not_allowed)
    × (check sample policy (from_owner "other") (some ("93.184.216.34" ∷ []))
        ≡ err credential_foreign_destination)
unfolding check check_structure by_host strip rstrip_dot split_host_port lookup owner_allows
    check_address validate_addresses classify_address
decided = (refl, refl, refl, refl)

check-outcome_example :
    ((d : Destination) × (check sample policy (from_owner "acme") (some ("93.184.216.34" ∷ []))
        ≡ ok d)
      × IsApproved sample policy (from_owner "acme") d
      × ((m : Meets sample policy (from_owner "acme") (some ("93.184.216.34" ∷ []))) × IsMadeOf m
            d))
    ⊎ ((e : DenyReason) × (check sample policy (from_owner "acme") (some ("93.184.216.34" ∷ []))
          ≡ err e)
        × (Meets sample policy (from_owner "acme") (some ("93.184.216.34" ∷ [])) → ⊥))
check-outcome_example =
    check-outcome sample policy (from_owner "acme") (some ("93.184.216.34" ∷ []))
