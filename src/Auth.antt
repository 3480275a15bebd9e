-- ===== src/Auth.antt =====
-- app/proxy/auth.py: `verify_api_key`, from the request's key to its entry, the scope of the route,
-- and the rate of the key. The key store is the parsed mapping of the file (its cache by file stamp
-- is left out), and a key's fingerprint is a parameter, since `hashlib` makes it.
use guardian_llmprovider_gat.Prelude.{
  ℕ, String, Bool, true, false, not, ◌&&◌, Option, none, some, List, [], ◌∷◌, if◌then◌else◌, Result,
  ok, err, str_eq, strip, lowers_to, or_text,
}
use guardian_llmprovider_gat.Value.{
  Value, bool, text, mapping, Fields, field, get, put, or_null, truthy, is_mapping, member,
}
use guardian_llmprovider_gat.Scopes.{Scope, public, same_scope, Stamp, authorize_key}
use guardian_llmprovider_gat.Scopes.Routes.{required_scope_for}
use guardian_llmprovider_gat.Admission.{AdmissionLimits}
use guardian_llmprovider_gat.Admission.Refusals.{Refusal}
use guardian_llmprovider_gat.Admission.RateLimiter.{RateLimiter, enforce_rate_limit}
mod Gate
mod Tests

-- The credentials of the `Authorization` header, the headers in their order, the method, and the path
-- template of the matched route.
pub record Request : Type 0 where
  pub credentials : Option String
  pub headers : List (String × String)
  pub method : Option String
  pub route : Option String

-- `value or None`
abbrev filled : String → Option String
filled value = if str_eq value "" then none else some value

unfoldable pub get_request_header : String → List (String × String) → Option String
unfolding lowers_to strip
get_request_header name [] = none
get_request_header name ((key, value) ∷ headers) =
    if lowers_to key name then filled (strip value) else get_request_header name headers

abbrev first_of : Option String → Option String → Option String
first_of none other = other
first_of (some x) other = some x

-- The token; where it was found is only logged.
unfoldable pub extract_api_key : Request → Option String
unfolding get_request_header
extract_api_key request =
    first_of (elim request.credentials [ none ↦ none | some c ↦ filled c ])
      (first_of (get_request_header "x-api-key" request.headers)
        (get_request_header "api-key" request.headers))

-- fields.setdefault(key, value)
unfoldable pub set_default : String → Value → Fields → Fields
set_default key value fs = elim (get key fs) [ none ↦ put key value fs | some v ↦ fs ]

abbrev fields_or : Fields → Value → Fields
fields_or other (mapping fs) = fs
fields_or other _ = other

-- `now` is the value of `time.time()`.
unfoldable pub normalize_key_entry : Value → String → Value → Fields
unfolding set_default
normalize_key_entry now token raw =
    let entry = fields_or (field "name" (text token) Fields.end) raw in
    let named =
      if truthy (or_null (get "name" entry)) then entry else put "name" (text token) entry in
    let dated = set_default "created_at" now named in
    let described =
      if is_mapping (or_null (get "metadata" dated))
      then dated
      else put "metadata" (mapping Fields.end) dated in
    set_default "cloud_gateway_access" (bool true) described

-- `keys.get(token)` of the loaded keys
unfoldable pub load_api_key : Value → Fields → String → Option Value
unfolding normalize_key_entry
load_api_key now store token = elim (get token store) [
  | none ↦ none
  | some raw ↦ some (mapping (normalize_key_entry now token raw))
]

pub data AuthError : Type 0 where
  missing_api_key invalid_api_key undeclared_route : AuthError
  insufficient_scope : Scope → AuthError
  refused : Refusal → AuthError

-- `_request_method(request) or "-"`
abbrev pub method_of : Option String → String
method_of none = "-"
method_of (some m) = if str_eq (strip m) "" then "-" else m

abbrev checked : Bool → Scope → Result AuthError (Unit {0})
checked true required = ok tt
checked false required = err (insufficient_scope required)

-- `return user_data["name"]` after the rate
unfoldable pub named : Value → Result Refusal (Unit {0}) → Result AuthError Value
named entry (ok u) = ok (or_null (member "name" entry))
named entry (err e) = err (refused e)

abbrev with_name :
    Value
    → Option (Result Refusal (Unit {0}) × RateLimiter)
    → Option (Result AuthError Value × RateLimiter)
with_name entry none = none
with_name entry (some (r, limiter)) = some (named entry r, limiter)

-- `path if isinstance(path, str) and path else None`
abbrev pub route_template : Option String → Option String
route_template none = none
route_template (some path) = filled path

module _ (from_iso_format : String → Option Stamp) (fingerprint : String → String) where
  unfoldable pub enforce_route_scope : Fields → ℕ → Request → Value → Result AuthError (Unit {0})
  enforce_route_scope config now request entry = elim (route_template request.route) [
    | none ↦ ok tt
    | some template ↦ elim (required_scope_for (some (method_of request.method)) (some template)) [
      | none ↦ err undeclared_route
      | some required ↦
          if same_scope required public
          then ok tt
          else checked (authorize_key from_iso_format config now entry required) required
    ]
  ]

  abbrev after_scope :
      ℕ
      → AdmissionLimits
      → String
      → Value
      → RateLimiter
      → Result AuthError (Unit {0})
      → Option (Result AuthError Value × RateLimiter)
  after_scope tick limits token entry limiter (err e) = some (err e, limiter)
  after_scope tick limits token entry limiter (ok u) =
      with_name entry (enforce_rate_limit tick limits (some (fingerprint token)) limiter)

  -- `now` is the wall clock in seconds, `stamp` its float, `tick` the monotonic clock in milliseconds.
  -- `none` is the failure of an assertion of the rate gate.
  unfoldable pub verify_api_key :
      (config store : Fields) (now tick : ℕ) (stamp : Value)
      → AdmissionLimits
      → Request
      → RateLimiter
      → Option (Result AuthError Value × RateLimiter)
  unfolding extract_api_key load_api_key enforce_route_scope
  verify_api_key config store now tick stamp limits request limiter =
      elim (extract_api_key request) [
        | none ↦ some (err missing_api_key, limiter)
        | some token ↦ elim (load_api_key stamp store token) [
          | none ↦ some (err invalid_api_key, limiter)
          | some entry ↦
              after_scope tick limits token entry limiter
                (enforce_route_scope config now request entry)
        ]
      ]
