-- ===== src/Auth/Tests.antt =====
-- The gate at concrete requests.
use guardian_llmprovider_gat.Prelude.{
  String, ◌≡◌, ◌+◌, ◌-◌, ◌/◌, ◌⊎◌, refl, Option, none, some, [], ◌∷◌, Result, ok, err, strip,
  lowers_to, same_codes,
}
use guardian_llmprovider_gat.Value.{
  Value, text, list, mapping, cons, nil, Fields, field, get, put, member, truthy, whole, pos,
}
use guardian_llmprovider_gat.Dict.{lookup, insert}
use guardian_llmprovider_gat.Scopes.{
  admin, Stamp, authorize_key, grace_window_open, configured_enforced_after, resolve_key_scopes,
  parse_declared, expand_scopes, metadata_of,
}
use guardian_llmprovider_gat.Scopes.Routes.{required_scope_for}
use guardian_llmprovider_gat.Admission.{parse_limits}
use guardian_llmprovider_gat.Admission.RateLimiter.{
  RateLimiter, new_limiter, check, enforce_rate_limit,
}
use guardian_llmprovider_gat.Auth.{Request, AuthError, insufficient_scope, verify_api_key, named}
use guardian_llmprovider_gat.Auth.Gate.{TurnedAway, Passed, verify_api_key-outcome}

abbrev fresh : RateLimiter
fresh = new_limiter (λ missing per_second. (missing + (per_second - 1)) / per_second)

abbrev never : String → Option Stamp
never s = none

abbrev same : String → String
same token = token

abbrev stamp : Value
stamp = whole (pos 1000)

-- One key, of a client.
abbrev store : Fields
store =
    field "flip_a"
      (mapping (
        field "metadata" (mapping (field "scopes" (list (cons (text "client") nil)) Fields.end))
          Fields.end))
      Fields.end

abbrev asks : String → String → Request
asks method path = record {
  credentials = none;
  headers = ("X-Api-Key", " flip_a ") ∷ [];
  method = some method;
  route = some path;
}

abbrev result_of : Option (Result AuthError Value × RateLimiter) → Option (Result AuthError Value)
result_of none = none
result_of (some (r, limiter)) = some r

-- The names that a run of the model computes with.
abbrev answer : Request → Option (Result AuthError Value)
unfolding verify_api_key enforce_rate_limit check parse_limits get put member truthy lookup insert
    authorize_key grace_window_open configured_enforced_after resolve_key_scopes parse_declared
    expand_scopes metadata_of required_scope_for strip lowers_to same_codes named
answer request =
    result_of
      (verify_api_key never same Fields.end store 1000 0 stamp (parse_limits none) request fresh)

answers :
    (answer (asks "GET" "/v1/models") ≡ some (ok (text "flip_a")))
    × (answer (asks "POST" "/api/keys") ≡ some (err (insufficient_scope admin)))
unfolding answer
answers = (refl, refl)

verify_api_key-outcome_example :
    (result : Result AuthError Value) × (after : RateLimiter) × (verify_api_key never same
        Fields.end store 1000 0 stamp
        (parse_limits none)
        (asks "GET" "/v1/models")
        fresh
      ≡ some (result, after))
    × (((x : AuthError) × (result ≡ err x)
          × (after ≡ fresh)
          × TurnedAway never same Fields.end store 1000 stamp (asks "GET" "/v1/models") x)
        ⊎ Passed never same Fields.end store 1000 0 stamp
            (parse_limits none)
            (asks "GET" "/v1/models")
            fresh
            after
            result)
verify_api_key-outcome_example =
    verify_api_key-outcome never same Fields.end store 1000 0 stamp none (asks "GET" "/v1/models")
      fresh
