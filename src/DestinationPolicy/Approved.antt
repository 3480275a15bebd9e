-- ===== src/DestinationPolicy/Approved.antt =====
-- app/destination_policy.py: proofs about the destinations that are approved.
use guardian_llmprovider_gat.Prelude.{
  Bool, true, false, not, Option, none, some, List, [], ◌∷◌, ◌++◌, ◌==◌, ◌≡◌, ◌≢◌, ◌⊎◌, inl, inr,
  refl, sym, subst, ◌∙◌, if◌then◌else◌, String, any, contains, str_eq, ok, ◌>>=◌, ◌>>◌, guard,
  or_raise, All, if-cases, >>_iff, >>=_iff, or_raise_iff, guard_iff, guard-not_iff,
}
use guardian_llmprovider_gat.DestinationPolicy.{
  dns_resolution_failed, dns_address_not_allowed, credential_without_owner,
  credential_foreign_destination, host_not_allowed, metadata_host_blocked, Library,
  classify_address, is_metadata, AllowEntry, Destination, DestinationPolicy, by_host,
  check_structure,
}
use guardian_llmprovider_gat.DestinationPolicy.Checks.{
  Request, check_redirect, check_credential, check_if, owner_allows, is_empty, check_address,
  validate_addresses, resolved, check,
}
use guardian_llmprovider_gat.DestinationPolicy.Structured.{
  SafeFor, IsStructured, check_structure-IsParsed, parsed-IsStructured,
}

pub record IsApproved (lib : Library) (p : DestinationPolicy) (r : Request) (d : Destination)
    : Type 0 where
  pub enforced : p.closed ≡ false
  pub scheme : contains d.scheme p.schemes ≡ true
  pub entry : AllowEntry
  pub found : by_host d.host p.entries ≡ some entry
  pub port : any (λ n. n == d.port) entry.ports ≡ true
  pub connects : d.addresses ≢ []
  pub safe : All (SafeFor lib entry d.host) d.addresses
  pub credential :
      r.has_credential ≡ true → (o : String) × (r.owner ≡ some o) × (owner_allows lib p o d ≡ true)

module _ (lib : Library) (e : AllowEntry) (host : String) where
  All-snoc :
      (xs : List String) (x : String)
      → All (SafeFor lib e host) xs
      → SafeFor lib e host x
      → All (SafeFor lib e host) (xs ++ x ∷ [])
  All-snoc [] x h s = (s, tt)
  All-snoc (y ∷ xs) x (h, hs) s = (h, All-snoc xs x hs s)

  check_address-safe : (x : String) → check_address lib e x ≡ ok tt → SafeFor lib e host x
  unfolding check_address
  check_address-safe x h =
      let (a, parsed, rest) =
        (>>=_iff (or_raise (lib.ip_address x) dns_address_not_allowed) _ tt).0 h in
      let (safe, allowed) =
        (>>_iff (guard (not (is_metadata (classify_address a))) metadata_host_blocked) _ tt).0
          rest in
      (
        a,
        (or_raise_iff (lib.ip_address x) dns_address_not_allowed a).0 parsed,
        (guard-not_iff _ metadata_host_blocked).0 safe,
        inr ((guard_iff _ dns_address_not_allowed).0 allowed),
      )

  snoc-filled : (xs : List String) (x : String) → is_empty (xs ++ x ∷ []) ≡ false
  snoc-filled [] x = refl
  snoc-filled (y ∷ xs) x = refl

  contains-filled : (x : String) (xs : List String) → contains x xs ≡ true → is_empty xs ≡ false
  contains-filled x [] h = cc
  contains-filled x (y ∷ xs) h = refl

  -- The list grows only by addresses that are safe, and is not empty once one was checked.
  validate-safe :
      (xs seen v : List String)
      → validate_addresses lib e xs seen ≡ ok v
      → All (SafeFor lib e host) seen
      → (is_empty seen ≡ false) ⊎ (is_empty xs ≡ false)
      → All (SafeFor lib e host) v × (is_empty v ≡ false)
  unfolding validate_addresses
  validate-safe [] seen v h safe (inl full) =
      let same : seen ≡ v = cc in
      subst (λ ys. All (SafeFor lib e host) ys × (is_empty ys ≡ false)) same (safe, full)
  validate-safe [] seen v h safe (inr full) = absurd (cc full)
  validate-safe (x ∷ xs) seen v h safe full =
      let (checked, rest) = (>>_iff (check_address lib e x) _ v).0 h in
      let (safe', full') =
        if-cases (λ ys. All (SafeFor lib e host) ys × (is_empty ys ≡ false)) (contains x seen) seen
          (seen ++ x ∷ []) (λ t. (safe, contains-filled x seen t))
          (λ t. (All-snoc seen x safe (check_address-safe x checked), snoc-filled seen x)) in
      validate-safe xs (if contains x seen then seen else seen ++ x ∷ []) v rest safe' (inl full')

resolved-safe :
    (lib : Library) (e : AllowEntry) (answer : Option (List String)) (d d' : Destination)
    → resolved lib e answer d ≡ ok d'
    → (v : List String) × (All (SafeFor lib e d.host) v × (is_empty v ≡ false))
      × (record d { addresses = v } ≡ d')
resolved-safe lib e answer d d' h =
    let (xs, answered, rest) = (>>=_iff (or_raise answer dns_resolution_failed) _ d').0 h in
    let (filled, checked) =
      (>>_iff (guard (not (is_empty xs)) dns_resolution_failed) _ d').0 rest in
    let (v, valid, made) = (>>=_iff (validate_addresses lib e xs []) _ d').0 checked in
    (
      v,
      validate-safe lib e d.host xs [] v valid tt
          (inr ((guard-not_iff (is_empty xs) dns_resolution_failed).0 filled)),
      cc,
    )

filled-some : (xs : List String) → is_empty xs ≡ false → xs ≢ []
filled-some [] h = cc
filled-some (x ∷ xs) h = λ e. cc

Credited : Library → DestinationPolicy → Request → Destination → Type 0
Credited lib p r d =
    r.has_credential ≡ true → (o : String) × (r.owner ≡ some o) × (owner_allows lib p o d ≡ true)

credential-ok :
    (lib : Library) (p : DestinationPolicy) (r : Request) (d : Destination) (b : Bool)
    (owner : Option String)
    → r.has_credential ≡ b
    → r.owner ≡ owner
    → check_if b (check_credential lib p owner d) ≡ ok tt
    → Credited lib p r d
unfolding Credited
credential-ok lib p r d false owner e f h = λ t. absurd (cc)
credential-ok lib p r d true none e f h = absurd (cc)
credential-ok lib p r d true (some o) e f h = λ t.
    let (named, allowed) = (>>_iff (guard (not (str_eq o "")) credential_without_owner) _ tt).0 h in
    (o, f, (guard_iff _ credential_foreign_destination).0 allowed)

approve :
    (lib : Library) (p : DestinationPolicy) (r : Request) (d : Destination) (v : List String)
    (s : IsStructured lib p d)
    → Credited lib p r d
    → All (SafeFor lib s.entry d.host) v
    → v ≢ []
    → IsApproved lib p r (record d { addresses = v })
unfolding Credited owner_allows
approve lib p r d v s c safe full = record {
  enforced = s.enforced;
  scheme = s.scheme;
  entry = s.entry;
  found = s.found;
  port = s.port;
  connects = full;
  safe = safe;
  credential = c;
}

connected-ok :
    (lib : Library) (p : DestinationPolicy) (r : Request) (answer : Option (List String))
    (d d' : Destination)
    → IsStructured lib p d
    → Credited lib p r d
    → (b : Bool) → is_empty d.addresses ≡ b
    → (if not b
        then ok d
        else or_raise (by_host d.host p.entries) host_not_allowed >>= λ entry.
            resolved lib entry answer d)
      ≡ ok d'
    → IsApproved lib p r d'
connected-ok lib p r answer d d' s c false e h =
    let same : d ≡ d' = cc in
    subst (IsApproved lib p r) same
      (approve lib p r d d.addresses s c s.literal (filled-some d.addresses e))
connected-ok lib p r answer d d' s c true e h =
    let (entry, found, rest) =
      (>>=_iff (or_raise (by_host d.host p.entries) host_not_allowed) _ d').0 h in
    let (v, (safe, full), made) = resolved-safe lib entry answer d d' rest in
    let looked_up = (or_raise_iff (by_host d.host p.entries) host_not_allowed entry).0 found in
    let same : entry ≡ s.entry = some_injective entry s.entry (sym looked_up ∙ s.found) in
    subst (IsApproved lib p r) made (
      approve lib p r d v s c (subst (λ x. All (SafeFor lib x d.host) v) same safe)
        (filled-some v full))
  where
    some_injective : (x y : AllowEntry) → some x ≡ some y → x ≡ y
    some_injective x y e = cc

-- A request is let out only to an approved destination, whatever the resolver answers: the policy is in
-- force, the scheme is allowed, the host is an entry of the allowlist and the port one of that entry; there
-- is an address to connect to, none is a metadata service, and each one is the literal of the host, or
-- pinned by the entry, or public where it pins none; and a credential goes along only if its owner is named
-- and has that host and port.
pub check-IsApproved :
    (lib : Library) (p : DestinationPolicy) (r : Request) (answer : Option (List String))
    (d : Destination)
    → check lib p r answer ≡ ok d
    → IsApproved lib p r d
unfolding check
check-IsApproved lib p r answer d' h =
    let (d, structure, rest) = (>>=_iff (check_structure lib p r.url) _ d').0 h in
    let a = check_redirect lib r in
    let b = check_if r.has_credential (check_credential lib p r.owner d) in
    let (ab, last) = (>>_iff (a >> b) _ d').0 rest in
    let credential =
      credential-ok lib p r d r.has_credential r.owner refl refl ((>>_iff a b tt).0 ab).1 in
    let s = parsed-IsStructured lib p r.url d (check_structure-IsParsed lib p r.url d structure) in
    connected-ok lib p r answer d d' s credential (is_empty d.addresses) refl last
