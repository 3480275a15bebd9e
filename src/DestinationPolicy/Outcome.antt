-- ===== src/DestinationPolicy/Outcome.antt =====
-- app/destination_policy.py: proofs about when a request is let out, and when it is not.
use guardian_llmprovider_gat.Prelude.{
  Bool, true, false, Option, none, some, List, [], ◌∷◌, ◌++◌, ◌≡◌, ◌⊎◌, inl, inr, refl,
  if◌then◌else◌, String, contains, str_eq, Result, ok, err, ◌>>◌, All, >>_iff, >>=_iff,
}
use guardian_llmprovider_gat.Dict.{lookup}
use guardian_llmprovider_gat.DestinationPolicy.{
  DenyReason, Library, AllowEntry, Destination, DestinationPolicy, by_host, split_host_port,
  check_literal, literal_addresses, check_structure,
}
use guardian_llmprovider_gat.DestinationPolicy.Checks.{
  Request, same_origin, listed, check_redirect, check_credential, check_if, owner_allows, is_empty,
  check_address, validate_addresses, connected, check,
}
use guardian_llmprovider_gat.DestinationPolicy.Approved.{IsApproved, check-IsApproved}
use guardian_llmprovider_gat.DestinationPolicy.Required.{
  Usable, Reachable, Meets, IsMadeOf, check-Required,
}

validate-ok :
    (lib : Library) (e : AllowEntry) (xs seen : List String)
    → All (Usable lib e) xs
    → (v : List String) × (validate_addresses lib e xs seen ≡ ok v)
unfolding validate_addresses check_address
validate-ok lib e [] seen h = (seen, refl)
validate-ok lib e (x ∷ xs) seen ((a, parsed, safe, allowed), h) =
    let (v, rest) = validate-ok lib e xs (if contains x seen then seen else seen ++ x ∷ []) h in
    (v, rw (parsed, safe, allowed) rest)

redirect-ok :
    (lib : Library) (r : Request) (o : Option String)
    → r.redirect_from ≡ o
    → ((source : String) → r.redirect_from ≡ some source → same_origin lib source r.url ≡ true)
    → check_redirect lib r ≡ ok tt
redirect-ok lib r none e h = rw e refl
redirect-ok lib r (some source) e h = rw (e, h source e) refl

credential-ok :
    (lib : Library) (p : DestinationPolicy) (d : Destination) (owner : Option String) (b : Bool)
    → (b ≡ true
        → (o : String) × (owner ≡ some o)
          × (str_eq o "" ≡ false)
          × (listed (lookup (lib.lower o) p.owners) d.host d.port ≡ true))
    → check_if b (check_credential lib p owner d) ≡ ok tt
unfolding owner_allows
credential-ok lib p d owner false h = refl
credential-ok lib p d owner true h = let (o, e, n, l) = h refl in rw (e, n, l) refl

literal-ok :
    (lib : Library) (e : AllowEntry) (host : String) (answer : Option (List String))
    (f : Option AllowEntry)
    → f ≡ some e
    → Reachable lib e host answer
    → check_literal (lib.ip_address host) f ≡ ok tt
literal-ok lib e host answer f q (inl (a, p, safe)) = rw (p, q, safe) refl
literal-ok lib e host answer f q (inr (xs, p, _, _, _)) = rw p refl

-- The destination before its name is resolved.
abbrev unresolved :
    (lib : Library) (p : DestinationPolicy) (r : Request) (answer : Option (List String))
    → Meets lib p r answer
    → Destination
unresolved lib p r answer m = record {
  url = r.url;
  scheme = lib.lower m.parts.scheme;
  host = split_host_port lib m.parts.hostname;
  port = m.port;
  addresses =
      literal_addresses (lib.ip_address (split_host_port lib m.parts.hostname))
        (split_host_port lib m.parts.hostname);
}

structure-ok :
    (lib : Library) (p : DestinationPolicy) (r : Request) (answer : Option (List String))
    (m : Meets lib p r answer)
    → check_structure lib p r.url ≡ ok (unresolved lib p r answer m)
unfolding check_structure
structure-ok lib p r answer m =
    let host = split_host_port lib m.parts.hostname in
    let literal = literal-ok lib m.entry host answer (by_host host p.entries) m.found m.reachable in
    rw
      (
        m.enforced, m.split, m.scheme, m.no_userinfo, m.named, m.valid_port, literal, m.found,
        m.port_listed,
      )
      refl

connected-found :
    (lib : Library) (p : DestinationPolicy) (e : AllowEntry) (answer : Option (List String))
    (d : Destination)
    → by_host d.host p.entries ≡ some e
    → d.addresses ≡ literal_addresses (lib.ip_address d.host) d.host
    → Reachable lib e d.host answer
    → (d' : Destination) × (connected lib p answer d ≡ ok d')
connected-found lib p e answer d f q (inl (a, i, safe)) =
    let known : is_empty d.addresses ≡ false = rw (q, i) refl in (d, rw known refl)
connected-found lib p e answer d f q (inr (xs, i, answered, filled, usable)) =
    let (v, valid) = validate-ok lib e xs [] usable in
    let bare : is_empty d.addresses ≡ true = rw (q, i) refl in
    (record d { addresses = v }, rw (bare, f, answered, filled, valid) refl)

check-Meets :
    (lib : Library) (p : DestinationPolicy) (r : Request) (answer : Option (List String))
    → Meets lib p r answer
    → (d : Destination) × (check lib p r answer ≡ ok d)
unfolding check
check-Meets lib p r answer m =
    let d = unresolved lib p r answer m in
    let (d', last) = connected-found lib p m.entry answer d m.found refl m.reachable in
    let a = redirect-ok lib r r.redirect_from refl m.redirect in
    let b = credential-ok lib p d r.owner r.has_credential m.owned in
    (
      d',
      (>>=_iff (check_structure lib p r.url) _ d').1 (
        d,
        structure-ok lib p r answer m,
        (>>_iff
              (check_redirect lib r >> check_if r.has_credential (check_credential lib p r.owner d))
              (connected lib p answer d) d').1
            ((>>_iff (check_redirect lib r) _ tt).1 (a, b), last),
      ),
    )

-- The check of a request, whatever the resolver answers. Either the request is let out. Then it meets what
-- such a request must meet: the policy is in force; the URL has an allowed scheme, no userinfo, a host with
-- an entry in the allowlist and a port of that entry; a redirect stays at its origin; a credential has a
-- named owner with that host and port; and the host is a literal that is no metadata service, or a name
-- whose answer is not empty and holds only addresses that are no metadata service and are pinned by the
-- entry, or public where it pins none. And it goes to the scheme, the host and the port of its URL and, at
-- least one, only to such addresses. Or it is refused, and does not meet all of that.
pub check-outcome :
    (lib : Library) (p : DestinationPolicy) (r : Request) (answer : Option (List String))
    → ((d : Destination) × (check lib p r answer ≡ ok d)
        × IsApproved lib p r d
        × ((m : Meets lib p r answer) × IsMadeOf m d))
      ⊎ ((e : DenyReason) × (check lib p r answer ≡ err e) × (Meets lib p r answer → ⊥))
check-outcome lib p r answer = decide (check lib p r answer) refl
  where
    decide :
        (c : Result DenyReason Destination)
        → check lib p r answer ≡ c
        → ((d : Destination) × (check lib p r answer ≡ ok d)
            × IsApproved lib p r d
            × ((m : Meets lib p r answer) × IsMadeOf m d))
          ⊎ ((e : DenyReason) × (check lib p r answer ≡ err e) × (Meets lib p r answer → ⊥))
    decide (ok d) h =
        inl (d, h, check-IsApproved lib p r answer d h, check-Required lib p r answer d h)
    decide (err e) h = inr (e, h, λ m. let (d, k) = check-Meets lib p r answer m in cc)
