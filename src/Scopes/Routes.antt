-- ===== src/Scopes/Routes.antt =====
-- app/proxy/scopes.py: the declared scope of every route.
use guardian_llmprovider_gat.Prelude.{
  ℕ, String, ◌&&◌, Option, none, some, List, [], ◌∷◌, map, codes, leb, ◌-◌, same_codes, str_eq,
  if◌then◌else◌,
}
use guardian_llmprovider_gat.Scopes.{Scope, public, client, operator, admin, capture_export}

pub record Route : Type 0 where
  pub method : String
  pub path : String
  pub scope : Scope

route : String → String → Scope → Route
route method path scope = record { method = method; path = path; scope = scope }

-- ROUTE_SCOPES, keyed by the method and the path template.
unfoldable pub route_scopes : List Route
unfolding route
route_scopes =
    route "GET" "/openapi.json" public
    ∷ route "GET" "/docs" public
    ∷ route "GET" "/docs/oauth2-redirect" public
    ∷ route "GET" "/redoc" public
    ∷ route "GET" "/healthz" public
    ∷ route "GET" "/metrics" client
    ∷ route "POST" "/api/chat" client
    ∷ route "POST" "/api/generate" client
    ∷ route "GET" "/api/tags" client
    ∷ route "GET" "/v1/models" client
    ∷ route "GET" "/v1/models/{model_id:path}/endpoints" client
    ∷ route "GET" "/v1/models/{model_id:path}" client
    ∷ route "POST" "/api/show" client
    ∷ route "GET" "/v1/queue/status" client
    ∷ route "GET" "/v1/queue/requests/{request_id}" client
    ∷ route "DELETE" "/v1/queue/requests/{request_id}" client
    ∷ route "GET" "/v1/{path:path}" client
    ∷ route "POST" "/v1/{path:path}" client
    ∷ route "POST" "/v1/audio/speech" client
    ∷ route "POST" "/v1/audio/transcriptions" client
    ∷ route "POST" "/admin/load" operator
    ∷ route "POST" "/admin/unload" operator
    ∷ route "GET" "/api/keys" admin
    ∷ route "POST" "/api/keys" admin
    ∷ route "POST" "/api/config/reload" admin
    ∷ route "GET" "/api/cloud/ratelimit-stats" admin
    ∷ route "GET" "/api/cloud/providers" admin
    ∷ route "GET" "/api/cloud/catalog" admin
    ∷ route "POST" "/api/cloud/catalog/refresh" admin
    ∷ route "GET" "/api/cloud/models" admin
    ∷ route "GET" "/api/crashes" admin
    ∷ route "GET" "/api/status" admin
    ∷ route "GET" "/api/scaler" admin
    ∷ route "PUT" "/api/scaler" admin
    ∷ route "POST" "/api/scaler/reset" admin
    ∷ route "POST" "/api/scaler/recommend" admin
    ∷ route "POST" "/api/session/save" admin
    ∷ route "POST" "/api/session/load" admin
    ∷ route "GET" "/api/session/list" admin
    ∷ route "GET" "/api/capture/status" capture_export
    ∷ route "POST" "/api/capture/rotate" capture_export
    ∷ route "MOUNT" "/static" public
    ∷ route "GET" "/" public
    ∷ route "GET" "/favicon.ico" public
    ∷ route "GET" "/api/stats" admin
    ∷ route "GET" "/api/benchmark" admin
    ∷ route "POST" "/api/benchmark/start" admin
    ∷ route "POST" "/api/benchmark/stop" admin
    ∷ []

upper_code : ℕ → ℕ
upper_code c = if leb b'a' c && leb c b'z' then c - 32 else c

-- `method.upper()`, of an ASCII method, with `HEAD` folded into `GET`.
normalized_method : String → List ℕ
unfolding upper_code
normalized_method method =
    let m = map upper_code (codes method) in if same_codes m (codes "HEAD") then codes "GET" else m

find_route : List ℕ → String → List Route → Option Scope
find_route method path [] = none
find_route method path (r ∷ rs) =
    if same_codes method (codes r.method) && str_eq r.path path
    then some r.scope
    else find_route method path rs

-- `none` is a route with no declaration.
unfoldable pub required_scope_for : Option String → Option String → Option Scope
unfolding find_route normalized_method route_scopes
required_scope_for (some method) (some path) =
    if str_eq method ""
    then none
    else if str_eq path ""
    then none
    else find_route (normalized_method method) path route_scopes
required_scope_for _ _ = none
