-- ===== src/Tests/Routes.antt =====
-- The routes of the state API with a concrete router, and what the agent's clients reach.
use Prim.Native.String as Text
use galera_k8s_operator.Base.{
  ℕ, String, ◌≡◌, refl, ◌⊎◌, inl, inr, Bool, true, false, ◌&&◌, ◌==◌, eq_iff, List, [], ◌∷◌, Option,
  none, some, if◌then◌else◌, Result, ok, Bool-cases,
}
use galera_k8s_operator.Tests.Paths.{path_of, path_of_lem}
use galera_k8s_operator.Entities.Node.RoundTrip.{omitted_target}
use galera_k8s_operator.Storage.{Storage, new_storage}
use galera_k8s_operator.Storage.Interface.{in_memory}
use galera_k8s_operator.Agent.HbCollector.Send.{send}
use galera_k8s_operator.Agent.HbCollector.Delivery.{status_of, deliver}
use galera_k8s_operator.Agent.StateManager.{HttpClient, fetch_target_state, received}
use galera_k8s_operator.Agent.StateManager.Fetch.{asked, IsFetched, fetch_stored}
use galera_k8s_operator.Tests.Plane.{report_request}
use galera_k8s_operator.Tests.Api.{report, named, new_found, one_node-IsValid, new_decoded}
use galera_k8s_operator.Tests.Data.{new_primary, one_node, resource_of, two_times}
use mathlib.Core.Option.{some-injective}
use galera_k8s_operator.Json.{RawMessage}
use galera_k8s_operator.StateApi.{Response, no_response, handle_heartbeat, handle_target_state}
use galera_k8s_operator.StateApi.Server.{
  Handler, Route, Router, setup_routes, IsDispatch, serve, Registers, heartbeat_handler,
  target_state_handler,
}
use galera_k8s_operator.StateApi.Server.Routing.{serve_cases, send_routed, IsPosted}

-- The first route with the method and the path
search_routes : String → List Route → String → String → Option Handler
search_routes prefix [] method path = none
search_routes prefix (r ∷ routes) method path =
    if r.method == method && Text.◌++◌ prefix r.pattern == path
    then some r.handler
    else search_routes prefix routes method path

search : Router → String → String → Option Handler
search r method path = search_routes r.prefix r.routes method path

both : (a b : Bool) → (a && b) ≡ true → (a ≡ true) × (b ≡ true)
both true true e = (refl, refl)
both true false e = cc e
both false b e = cc e

search_only :
    (method path : String) (h : Handler)
    → search setup_routes method path ≡ some h
    → Registers setup_routes method path h
unfolding search search_routes setup_routes
search_only method path h e = elim (Bool-cases ("POST" == method && "/api/v1/heartbeat" == path)) [
  | inl t ↦
      let (a, b) = both ("POST" == method) ("/api/v1/heartbeat" == path) t in
      inl (
        (eq_iff "POST" method).0 a,
        (eq_iff "/api/v1/heartbeat" path).0 b,
        some-injective heartbeat_handler h (rw t at e),
      )
  | inr f ↦ elim (Bool-cases ("GET" == method && "/api/v1/target-state" == path)) [
    | inl t ↦
        let (a, b) = both ("GET" == method) ("/api/v1/target-state" == path) t in
        inr (
          inl (
            (eq_iff "GET" method).0 a,
            (eq_iff "/api/v1/target-state" path).0 b,
            some-injective target_state_handler h (rw (f, t) at e),
          ))
    | inr g ↦ cc (rw (f, g) at e)
  ]
]

search-IsDispatch : IsDispatch search setup_routes
unfolding search search_routes setup_routes
search-IsDispatch = record {
  served = λ method path h x. elim x [
    | inl (a, b, c) ↦ rw (← a, ← b, ← c) refl
    | inr (inl (a, b, c)) ↦ rw (← a, ← b, ← c) refl
    | inr (inr y) ↦ absurd y
  ];
  only = search_only;
}

abbrev not_found : String → String → Response
not_found method path = record no_response { status = some 404 }

abbrev gateway : String → RawMessage → Storage → Result ℕ × Storage
gateway url body s =
    let (r, s') =
      serve in_memory search not_found setup_routes 5 (path_of url)
        (record { method = "POST"; body = body; query_name = "" }) s in
    (ok (status_of r.status), s')

gateway-IsPosted :
    (path : String) → IsPosted search not_found search-IsDispatch "api" 5 gateway path
gateway-IsPosted path body s = rw (path_of_lem path) refl

abbrev heartbeat_path : String
heartbeat_path = "/api/v1/heartbeat"

serve_cases_example :
    ((report_request.method ≡ "POST")
      × (heartbeat_path ≡ "/api/v1/heartbeat")
      × (serve in_memory search not_found setup_routes 5 heartbeat_path report_request new_storage
          ≡ handle_heartbeat in_memory 5 report_request new_storage))
    ⊎ ((report_request.method ≡ "GET")
        × (heartbeat_path ≡ "/api/v1/target-state")
        × (serve in_memory search not_found setup_routes 5 heartbeat_path report_request new_storage
            ≡ (handle_target_state in_memory report_request new_storage, new_storage)))
    ⊎ (¬ ((report_request.method ≡ "POST") × (heartbeat_path ≡ "/api/v1/heartbeat"))
        × ¬ ((report_request.method ≡ "GET") × (heartbeat_path ≡ "/api/v1/target-state"))
        × (serve in_memory search not_found setup_routes 5 heartbeat_path report_request new_storage
            ≡ (not_found report_request.method heartbeat_path, new_storage)))
serve_cases_example =
    serve_cases in_memory search not_found search-IsDispatch 5 heartbeat_path report_request
      new_storage

send_routed_example :
    (send gateway (Text.◌++◌ "api" "/api/v1") report (one_node new_primary)
      ≡ send (deliver 5) "api" report (one_node new_primary))
    × ((send gateway "api" report (one_node new_primary)).1 ≡ one_node new_primary)
send_routed_example =
    send_routed search not_found search-IsDispatch "api" 5 gateway
      (gateway-IsPosted "/api/v1/heartbeat") (gateway-IsPosted "/heartbeat") report
      (one_node new_primary)

-- A client that sends what it was asked to, for one state of the storage
abbrev getter : HttpClient
getter = record {
  Req = String × String;
  Values = String;
  new_request = λ method url. ok (url, "");
  query = λ req. req.1;
  add = λ name value values. value;
  encode = λ values. values;
  set_raw_query = λ text req. (req.0, text);
  do_request = λ req. ok (
      received
        (serve in_memory search not_found setup_routes 5 (path_of req.0) (asked req.1)
          (one_node new_primary)).0);
}

getter-IsFetched :
    IsFetched in_memory search not_found search-IsDispatch "api" 5 getter "node-1"
      (one_node new_primary)
getter-IsFetched = (
  (Text.◌++◌ "http://" (Text.◌++◌ "api" "/api/v1/target-state"), ""),
  refl,
  rw (path_of_lem "/api/v1/target-state") refl,
)

fetch_stored_example :
    fetch_target_state getter (Text.◌++◌ "api" "/api/v1") "node-1"
    ≡ ok (some (omitted_target new_primary.spec.agent_target_state))
fetch_stored_example =
    fetch_stored in_memory search not_found search-IsDispatch "api" 5 getter (one_node new_primary)
      "node-1" (resource_of new_primary) new_primary getter-IsFetched one_node-IsValid named
      new_found refl new_decoded refl
