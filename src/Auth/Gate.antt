-- ===== src/Auth/Gate.antt =====
-- app/proxy/auth.py: proofs about `_enforce_route_scope` and `verify_api_key`.
use guardian_llmprovider_gat.Prelude.{
  ℕ, String, ◌≡◌, ◌⊎◌, refl, sym, subst, true, Option, none, some, arith, Bool-cases, Option-cases,
  inl, inr, Result, ok, err,
}
use guardian_llmprovider_gat.Value.{Value, Fields}
use guardian_llmprovider_gat.Scopes.{
  Scope, public, same_scope, Stamp, authorize_key, grace_window_open,
}
use guardian_llmprovider_gat.Scopes.Routes.{required_scope_for}
use guardian_llmprovider_gat.Scopes.Grants.{Entitled, declaration, authorize_key_iff}
use guardian_llmprovider_gat.Admission.{AdmissionLimits, parse_limits}
use guardian_llmprovider_gat.Admission.Refusals.{Refusal}
use guardian_llmprovider_gat.Admission.RateLimiter.{RateLimiter}
use guardian_llmprovider_gat.Admission.Enforcement.{
  Misconfigured, Asked, enforce_rate_limit-outcome,
}
use guardian_llmprovider_gat.Auth.{
  Request, AuthError, missing_api_key, invalid_api_key, extract_api_key, load_api_key, method_of,
  route_template, named, enforce_route_scope, verify_api_key,
}

same-public : (s : Scope) → same_scope s public ≡ true → s ≡ public
same-public public h = refl
same-public _ h = cc

module _ (iso : String → Option Stamp) (fingerprint : String → String) where
  -- The route is open to the entry: it has no template, or its declared scope is `public` or one that
  -- the entry is entitled to.
  abbrev pub Opens : Fields → ℕ → Request → Value → Type 0
  Opens config now request entry =
      (route_template request.route ≡ none)
      ⊎ ((template : String) × (s : Scope) × (route_template request.route ≡ some template)
          × (required_scope_for (some (method_of request.method)) (some template) ≡ some s)
          × ((s ≡ public) ⊎ Entitled (declaration entry) (grace_window_open iso config now) s))

  enforce-Opens :
      (config : Fields) (now : ℕ) (request : Request) (entry : Value)
      → enforce_route_scope iso fingerprint config now request entry ≡ ok tt
      → Opens config now request entry
  unfolding enforce_route_scope
  enforce-Opens config now request entry h = elim (Option-cases (route_template request.route)) [
    | inl p ↦ inl p
    | inr (template, p) ↦
        elim (Option-cases (required_scope_for (some (method_of request.method)) (some template))) [
          | inl q ↦ absurd (ground arith)
          | inr (s, q) ↦ elim (Bool-cases (same_scope s public)) [
            | inl e ↦ inr (template, s, p, q, inl (same-public s e))
            | inr e ↦ elim (Bool-cases (authorize_key iso config now entry s)) [
              | inl a ↦
                  inr (template, s, p, q, inr ((authorize_key_iff iso config now entry s).0 a))
              | inr a ↦ absurd (ground arith)
            ]
          ]
        ]
  ]

  Opens-enforce :
      (config : Fields) (now : ℕ) (request : Request) (entry : Value)
      → Opens config now request entry
      → enforce_route_scope iso fingerprint config now request entry ≡ ok tt
  unfolding enforce_route_scope
  Opens-enforce config now request entry (inl p) = rw (enforce_route_scope, p) refl
  Opens-enforce config now request entry (inr (template, s, p, q, inl e)) =
      let same : same_scope s public ≡ true =
        subst (λ t. same_scope t public ≡ true) (sym e) refl in
      rw (enforce_route_scope, p, q, same) refl
  Opens-enforce config now request entry (inr (template, s, p, q, inr e)) =
      let a = (authorize_key_iff iso config now entry s).1 e in
      elim (Bool-cases (same_scope s public)) [
        | inl same ↦ rw (enforce_route_scope, p, q, same) refl
        | inr other ↦ rw (enforce_route_scope, p, q, other, a) refl
      ]

  Result-cases : (r : Result AuthError (Unit {0})) → (r ≡ ok tt) ⊎ ((x : AuthError) × (r ≡ err x))
  Result-cases (ok tt) = inl refl
  Result-cases (err x) = inr (x, refl)

  err-closed :
      (config : Fields) (now : ℕ) (request : Request) (entry : Value) (x : AuthError)
      → enforce_route_scope iso fingerprint config now request entry ≡ err x
      → Opens config now request entry
      → ⊥
  err-closed config now request entry x e o =
      ground (arith, e, Opens-enforce config now request entry o)

  -- A request that got as far as the rate of its key: the key is in the store, the route is open to
  -- its entry, and the bucket of its fingerprint decided.
  pub record Passed (config store : Fields) (now tick : ℕ) (stamp : Value)
      (limits : AdmissionLimits) (request : Request) (before after : RateLimiter)
      (result : Result AuthError Value) : Type 0 where
    token : String
    entry : Value
    answer : Result Refusal (Unit {0})
    presented : extract_api_key request ≡ some token
    stored : load_api_key stamp store token ≡ some entry
    opens : Opens config now request entry
    rated :
        Misconfigured before after answer
        ⊎ Asked tick limits (some (fingerprint token)) before after answer
    answered : result ≡ named entry answer

  -- Why a request is turned away before its key's rate is looked at.
  pub data TurnedAway (config store : Fields) (now : ℕ) (stamp : Value) (request : Request)
      : AuthError → Type 0 where
    no_key :
        extract_api_key request ≡ none → TurnedAway config store now stamp request missing_api_key
    unknown :
        (token : String)
        → extract_api_key request ≡ some token
        → load_api_key stamp store token ≡ none
        → TurnedAway config store now stamp request invalid_api_key
    closed :
        (token : String) (entry : Value) (x : AuthError)
        → extract_api_key request ≡ some token
        → load_api_key stamp store token ≡ some entry
        → enforce_route_scope iso fingerprint config now request entry ≡ err x
        → (Opens config now request entry → ⊥)
        → TurnedAway config store now stamp request x

-- The gate of every request, for any key store, configuration, clocks and limits that a configuration
-- resolves to: it always answers. Either the request is turned away, because it has no key, an unknown
-- one, or one that is not entitled to the route, and no bucket is touched; or it has a stored key whose
-- entry the route is open to, the rate gate was asked with the key's fingerprint, and the request
-- passes with the entry's name exactly if that gate lets it through.
pub verify_api_key-outcome :
    (iso : String → Option Stamp) (fingerprint : String → String) (config store : Fields)
    (now tick : ℕ) (stamp : Value) (section : Option Value) (request : Request)
    (limiter : RateLimiter)
    → (result : Result AuthError Value) × (after : RateLimiter) × (verify_api_key iso fingerprint
          config store now tick stamp
          (parse_limits section)
          request
          limiter
        ≡ some (result, after))
      × (((x : AuthError) × (result ≡ err x)
            × (after ≡ limiter)
            × TurnedAway iso fingerprint config store now stamp request x)
          ⊎ Passed iso fingerprint config store now tick stamp
              (parse_limits section)
              request
              limiter
              after
              result)
unfolding verify_api_key
verify_api_key-outcome iso fingerprint config store now tick stamp section request limiter =
    elim (Option-cases (extract_api_key request)) [
      | inl p ↦ (
        err missing_api_key,
        limiter,
        rw (verify_api_key, p) refl,
        inl (missing_api_key, refl, refl, no_key p),
      )
      | inr (token, p) ↦ elim (Option-cases (load_api_key stamp store token)) [
        | inl q ↦ (
          err invalid_api_key,
          limiter,
          rw (verify_api_key, p, q) refl,
          inl (invalid_api_key, refl, refl, unknown token p q),
        )
        | inr (entry, q) ↦
            elim (Result-cases iso fingerprint
              (enforce_route_scope iso fingerprint config now request entry)) [
                | inr (x, e) ↦ (
                  err x,
                  limiter,
                  rw (verify_api_key, p, q, e) refl,
                  inl (
                    x,
                    refl,
                    refl,
                    closed token entry x p q e
                        (err-closed iso fingerprint config now request entry x e),
                  ),
                )
                | inl e ↦
                    let (answer, after, eq, o) =
                      enforce_rate_limit-outcome tick section (some (fingerprint token)) limiter in
                    (
                      named entry answer,
                      after,
                      rw (verify_api_key, p, q, e, eq) refl,
                      inr (record {
                        token = token;
                        entry = entry;
                        answer = answer;
                        presented = p;
                        stored = q;
                        opens = enforce-Opens iso fingerprint config now request entry e;
                        rated = o;
                        answered = refl;
                      }),
                    )
              ]
      ]
    ]
