-- ===== src/DestinationPolicy/Structured.antt =====
-- app/destination_policy.py: proofs about the structure of the URLs that are approved.
use guardian_llmprovider_gat.Prelude.{
  ℕ, true, false, not, Option, none, some, ◌==◌, ◌≡◌, ◌⊎◌, inl, refl, subst, String, any, contains,
  str_eq, ok, ◌>>◌, guard, or_raise, All, >>_iff, >>=_iff, or_raise_iff, guard_iff, guard-not_iff,
}
use guardian_llmprovider_gat.DestinationPolicy.{
  policy_unavailable, scheme_not_allowed, userinfo_not_allowed, host_not_allowed, port_not_allowed,
  metadata_host_blocked, Address, Library, SplitUrl, classify_address, is_metadata, AllowEntry,
  Destination, DestinationPolicy, by_host, split_host_port, port_of, has_userinfo, check_literal,
  literal_addresses, check_structure, class_missing_reason, is_found,
}
use guardian_llmprovider_gat.DestinationPolicy.Checks.{answer_allowed}

-- An address to connect to: it is no metadata service, and it is the literal that the entry names, or
-- pinned by the entry, or public where the entry pins none.
abbrev pub SafeFor : Library → AllowEntry → (host address : String) → Type 0
SafeFor lib entry host address =
    (a : Address) × (lib.ip_address address ≡ some a)
    × (is_metadata (classify_address a) ≡ false)
    × ((host ≡ address) ⊎ (answer_allowed entry a ≡ true))

-- What the structure of a URL tells.
pub record IsStructured (lib : Library) (p : DestinationPolicy) (d : Destination) : Type 0 where
  pub enforced : p.closed ≡ false
  pub scheme : contains d.scheme p.schemes ≡ true
  pub entry : AllowEntry
  pub found : by_host d.host p.entries ≡ some entry
  pub port : any (λ n. n == d.port) entry.ports ≡ true
  pub literal : All (SafeFor lib entry d.host) d.addresses

literal-safe :
    (lib : Library) (e : AllowEntry) (host : String) (o : Option Address)
    (found : Option AllowEntry)
    → lib.ip_address host ≡ o
    → check_literal o found ≡ ok tt
    → All (SafeFor lib e host) (literal_addresses o host)
literal-safe lib e host none found s h = tt
literal-safe lib e host (some a) found s h =
    let first = guard (not (is_metadata (classify_address a))) metadata_host_blocked in
    let (safe, rest) =
      (>>_iff first (guard (is_found found) (class_missing_reason (classify_address a))) tt).0 h in
    ((a, s, (guard-not_iff _ metadata_host_blocked).0 safe, inl refl), tt)

-- What the check of the structure has found on its way.
pub record IsParsed (lib : Library) (p : DestinationPolicy) (url : String) (d : Destination)
    : Type 0 where
  pub enforced : p.closed ≡ false
  pub parts : SplitUrl
  pub split : lib.urlsplit url ≡ some parts
  pub scheme : contains (lib.lower parts.scheme) p.schemes ≡ true
  pub no_userinfo : has_userinfo parts ≡ false
  pub named : str_eq (split_host_port lib parts.hostname) "" ≡ false
  pub port : ℕ
  pub valid_port : port_of (lib.lower parts.scheme) parts.port ≡ ok port
  pub literal :
      check_literal
        (lib.ip_address (split_host_port lib parts.hostname))
        (by_host (split_host_port lib parts.hostname) p.entries)
      ≡ ok tt
  pub entry : AllowEntry
  pub found : by_host (split_host_port lib parts.hostname) p.entries ≡ some entry
  pub port_listed : any (λ n. n == port) entry.ports ≡ true
  pub made :
      record {
        url = url;
        scheme = lib.lower parts.scheme;
        host = split_host_port lib parts.hostname;
        port = port;
        addresses =
            literal_addresses
              (lib.ip_address (split_host_port lib parts.hostname))
              (split_host_port lib parts.hostname);
      }
      ≡ d

pub check_structure-IsParsed :
    (lib : Library) (p : DestinationPolicy) (url : String) (d : Destination)
    → check_structure lib p url ≡ ok d
    → IsParsed lib p url d
unfolding check_structure
check_structure-IsParsed lib p url d h =
    let (enforced, rest) = (>>_iff (guard (not p.closed) policy_unavailable) _ d).0 h in
    let (parts, split, checked) =
      (>>=_iff (or_raise (lib.urlsplit url) host_not_allowed) _ d).0 rest in
    let s = lib.lower parts.scheme in
    let host = split_host_port lib parts.hostname in
    let a = guard (contains s p.schemes) scheme_not_allowed in
    let b = guard (not (has_userinfo parts)) userinfo_not_allowed in
    let c = guard (not (str_eq host "")) host_not_allowed in
    let (abc, ported) = (>>_iff (a >> b >> c) _ d).0 checked in
    let (ab, nonempty) = (>>_iff (a >> b) c tt).0 abc in
    let (scheme, userinfo) = (>>_iff a b tt).0 ab in
    let (n, port, hosted) = (>>=_iff (port_of s parts.port) _ d).0 ported in
    let (literal, named) =
      (>>_iff (check_literal (lib.ip_address host) (by_host host p.entries)) _ d).0 hosted in
    let (entry, found, last) =
      (>>=_iff (or_raise (by_host host p.entries) host_not_allowed) _ d).0 named in
    let (allowed, made) =
      (>>_iff (guard (any (λ m. m == n) entry.ports) port_not_allowed) _ d).0 last in
    record {
      enforced = (guard-not_iff p.closed policy_unavailable).0 enforced;
      parts = parts;
      split = (or_raise_iff (lib.urlsplit url) host_not_allowed parts).0 split;
      scheme = (guard_iff _ scheme_not_allowed).0 scheme;
      no_userinfo = (guard-not_iff _ userinfo_not_allowed).0 userinfo;
      named = (guard-not_iff _ host_not_allowed).0 nonempty;
      port = n;
      valid_port = port;
      literal = literal;
      entry = entry;
      found = (or_raise_iff _ host_not_allowed entry).0 found;
      port_listed = (guard_iff _ port_not_allowed).0 allowed;
      made = cc;
    }

pub parsed-IsStructured :
    (lib : Library) (p : DestinationPolicy) (url : String) (d : Destination)
    → IsParsed lib p url d
    → IsStructured lib p d
parsed-IsStructured lib p url d h =
    let host = split_host_port lib h.parts.hostname in
    subst (IsStructured lib p) h.made (record {
      enforced = h.enforced;
      scheme = h.scheme;
      entry = h.entry;
      found = h.found;
      port = h.port_listed;
      literal =
          literal-safe lib h.entry host (lib.ip_address host) (by_host host p.entries) refl
            h.literal;
    })
