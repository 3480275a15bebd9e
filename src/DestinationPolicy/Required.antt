-- ===== src/DestinationPolicy/Required.antt =====
-- app/destination_policy.py: proofs about what a request that is let out has met.
use guardian_llmprovider_gat.Prelude.{
  ℕ, Bool, true, false, Option, none, some, List, [], ◌∷◌, ◌++◌, ◌==◌, ◌≡◌, ◌⊎◌, inl, inr, refl,
  if◌then◌else◌, String, any, contains, str_eq, ok, ◌>>◌, All, >>_iff, >>=_iff, or_raise_iff,
  guard_iff, guard-not_iff, guard, or_raise, not, sym, subst, ap, ◌∙◌,
}
use guardian_llmprovider_gat.Dict.{lookup}
use guardian_llmprovider_gat.DestinationPolicy.{
  metadata_host_blocked, dns_address_not_allowed, redirect_not_allowed, credential_without_owner,
  credential_foreign_destination, dns_resolution_failed, Address, SplitUrl, Library,
  classify_address, is_metadata, AllowEntry, Destination, DestinationPolicy, by_host,
  split_host_port, port_of, has_userinfo, check_literal, literal_addresses, check_structure,
}
use guardian_llmprovider_gat.DestinationPolicy.Checks.{
  Request, same_origin, listed, check_redirect, check_credential, check_if, owner_allows, is_empty,
  answer_allowed, check_address, validate_addresses, resolved, connected, check,
}
use guardian_llmprovider_gat.DestinationPolicy.Structured.{check_structure-IsParsed}

abbrev pub Usable : Library → AllowEntry → String → Type 0
Usable lib e x =
    (a : Address) × (lib.ip_address x ≡ some a)
    × (is_metadata (classify_address a) ≡ false)
    × (answer_allowed e a ≡ true)

-- A literal that is no metadata service, or a name with an answer of usable addresses only.
abbrev pub Reachable :
    Library → AllowEntry → (host : String) → (answer : Option (List String)) → Type 0
Reachable lib e host answer =
    ((a : Address) × (lib.ip_address host ≡ some a) × (is_metadata (classify_address a) ≡ false))
    ⊎ ((xs : List String) × (lib.ip_address host ≡ none)
        × (answer ≡ some xs)
        × (is_empty xs ≡ false)
        × All (Usable lib e) xs)

-- What a request must meet.
pub record Meets (lib : Library) (p : DestinationPolicy) (r : Request)
    (answer : Option (List String)) : Type 0 where
  pub enforced : p.closed ≡ false
  pub parts : SplitUrl
  pub split : lib.urlsplit r.url ≡ some parts
  pub scheme : contains (lib.lower parts.scheme) p.schemes ≡ true
  pub no_userinfo : has_userinfo parts ≡ false
  pub named : str_eq (split_host_port lib parts.hostname) "" ≡ false
  pub port : ℕ
  pub valid_port : port_of (lib.lower parts.scheme) parts.port ≡ ok port
  pub entry : AllowEntry
  pub found : by_host (split_host_port lib parts.hostname) p.entries ≡ some entry
  pub port_listed : any (λ n. n == port) entry.ports ≡ true
  pub redirect :
      (source : String) → r.redirect_from ≡ some source → same_origin lib source r.url ≡ true
  pub owned :
      r.has_credential ≡ true
      → (o : String) × (r.owner ≡ some o)
        × (str_eq o "" ≡ false)
        × (listed (lookup (lib.lower o) p.owners) (split_host_port lib parts.hostname) port ≡ true)
  pub reachable : Reachable lib entry (split_host_port lib parts.hostname) answer

-- The destination is that of the URL.
pub record IsMadeOf {lib : Library} {p : DestinationPolicy} {r : Request}
    {answer : Option (List String)} (m : Meets lib p r answer) (d : Destination) : Type 0 where
  pub its_url : d.url ≡ r.url
  pub its_scheme : d.scheme ≡ lib.lower m.parts.scheme
  pub its_host : d.host ≡ split_host_port lib m.parts.hostname
  pub its_port : d.port ≡ m.port

checked-Usable :
    (lib : Library) (e : AllowEntry) (xs seen v : List String)
    → validate_addresses lib e xs seen ≡ ok v
    → All (Usable lib e) xs
unfolding validate_addresses check_address
checked-Usable lib e [] seen v h = tt
checked-Usable lib e (x ∷ xs) seen v h =
    let more = if contains x seen then seen else seen ++ x ∷ [] in
    let (checked, rest) =
      (>>_iff (check_address lib e x) (validate_addresses lib e xs more) v).0 h in
    let (a, parsed, tests) =
      (>>=_iff (or_raise (lib.ip_address x) dns_address_not_allowed) _ tt).0 checked in
    let (safe, allowed) =
      (>>_iff (guard (not (is_metadata (classify_address a))) metadata_host_blocked) _ tt).0
        tests in
    (
      (
        a,
        (or_raise_iff (lib.ip_address x) dns_address_not_allowed a).0 parsed,
        (guard-not_iff _ metadata_host_blocked).0 safe,
        (guard_iff _ dns_address_not_allowed).0 allowed,
      ),
      checked-Usable lib e xs more v rest,
    )

redirect-required :
    (lib : Library) (r : Request)
    → check_redirect lib r ≡ ok tt
    → (source : String) → r.redirect_from ≡ some source
    → same_origin lib source r.url ≡ true
redirect-required lib r h source e =
    (guard_iff (same_origin lib source r.url) redirect_not_allowed).0 (rw e at h)

credential-required :
    (lib : Library) (p : DestinationPolicy) (d : Destination) (owner : Option String) (b : Bool)
    → check_if b (check_credential lib p owner d) ≡ ok tt
    → b ≡ true
    → (o : String) × (owner ≡ some o)
      × (str_eq o "" ≡ false)
      × (listed (lookup (lib.lower o) p.owners) d.host d.port ≡ true)
unfolding owner_allows
credential-required lib p d owner false h t = absurd (cc)
credential-required lib p d none true h t = absurd (cc)
credential-required lib p d (some o) true h t =
    let (named, allowed) = (>>_iff (guard (not (str_eq o "")) credential_without_owner) _ tt).0 h in
    (
      o,
      refl,
      (guard-not_iff _ credential_without_owner).0 named,
      (guard_iff _ credential_foreign_destination).0 allowed,
    )

-- The host is given by an equation, so that its literal can be looked at.
reached :
    (lib : Library) (p : DestinationPolicy) (e : AllowEntry) (answer : Option (List String))
    (d d' : Destination) (o : Option Address)
    → lib.ip_address d.host ≡ o
    → by_host d.host p.entries ≡ some e
    → check_literal o (by_host d.host p.entries) ≡ ok tt
    → d.addresses ≡ literal_addresses o d.host
    → connected lib p answer d ≡ ok d'
    → Reachable lib e d.host answer × (record d { addresses = d'.addresses } ≡ d')
reached lib p e answer d d' (some a) i f c q h =
    let known : is_empty d.addresses ≡ false = rw q refl in
    let kept : connected lib p answer d ≡ ok d = rw known refl in
    let same : d ≡ d' = cc in
    let (safe, rest) =
      (>>_iff (guard (not (is_metadata (classify_address a))) metadata_host_blocked) _ tt).0 c in
    (
      inl (a, i, (guard-not_iff _ metadata_host_blocked).0 safe),
      subst (λ x. record d { addresses = x.addresses } ≡ x) same refl,
    )
reached lib p e answer d d' none i f c q h =
    let bare : is_empty d.addresses ≡ true = rw q refl in
    let looked : connected lib p answer d ≡ resolved lib e answer d = rw (bare, f) refl in
    let (xs, answered, rest) =
      (>>=_iff (or_raise answer dns_resolution_failed) _ d').0 (sym looked ∙ h) in
    let (filled, checked) =
      (>>_iff (guard (not (is_empty xs)) dns_resolution_failed) _ d').0 rest in
    let (v, valid, made) = (>>=_iff (validate_addresses lib e xs []) _ d').0 checked in
    let same : record d { addresses = v } ≡ d' = cc in
    (
      inr (
        xs,
        i,
        (or_raise_iff answer dns_resolution_failed xs).0 answered,
        (guard-not_iff (is_empty xs) dns_resolution_failed).0 filled,
        checked-Usable lib e xs [] v valid,
      ),
      subst (λ x. record d { addresses = x.addresses } ≡ x) same refl,
    )

pub check-Required :
    (lib : Library) (p : DestinationPolicy) (r : Request) (answer : Option (List String))
    (d : Destination)
    → check lib p r answer ≡ ok d
    → (m : Meets lib p r answer) × IsMadeOf m d
unfolding check
check-Required lib p r answer d' h =
    let (d, structure, rest) = (>>=_iff (check_structure lib p r.url) _ d').0 h in
    let a = check_redirect lib r in
    let b = check_if r.has_credential (check_credential lib p r.owner d) in
    let (ab, last) = (>>_iff (a >> b) _ d').0 rest in
    let (redirected, credited) = (>>_iff a b tt).0 ab in
    let s = check_structure-IsParsed lib p r.url d structure in
    let host = split_host_port lib s.parts.hostname in
    let plain : Destination = record {
      url = r.url;
      scheme = lib.lower s.parts.scheme;
      host = host;
      port = s.port;
      addresses = literal_addresses (lib.ip_address host) host;
    } in
    let (reach, same) =
      reached lib p s.entry answer plain d' (lib.ip_address host) refl s.found s.literal refl
        (subst (λ x. connected lib p answer x ≡ ok d') (sym s.made) last) in
    (
      record {
        enforced = s.enforced;
        parts = s.parts;
        split = s.split;
        scheme = s.scheme;
        no_userinfo = s.no_userinfo;
        named = s.named;
        port = s.port;
        valid_port = s.valid_port;
        entry = s.entry;
        found = s.found;
        port_listed = s.port_listed;
        redirect = redirect-required lib r redirected;
        owned = credential-required lib p plain r.owner r.has_credential (
            subst (λ x. check_if r.has_credential (check_credential lib p r.owner x) ≡ ok tt)
              (sym s.made) credited);
        reachable = reach;
      },
      record {
        its_url = sym (ap (λ (x : Destination). x.url) same);
        its_scheme = sym (ap (λ (x : Destination). x.scheme) same);
        its_host = sym (ap (λ (x : Destination). x.host) same);
        its_port = sym (ap (λ (x : Destination). x.port) same);
      },
    )
