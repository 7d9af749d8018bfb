-- ===== src/Agent/StateManager/Fetch.antt =====
-- GetTargetState of internal/agent/target-state-manager/manager.go against the routes of
-- internal/state-api/server.go.
use Prim.Native.String as Text
use text.Mathlib.TextLemmas.{append_assoc}
use galera_k8s_operator.Base.{ℕ, String, ◌≡◌, ◌≢◌, refl, Option, some, ok, IsInt64}
use galera_k8s_operator.Json.{empty}
use galera_k8s_operator.Entities.Agent.{TimeText}
use galera_k8s_operator.Entities.General.{GeneralTargetState}
use galera_k8s_operator.Entities.Node
use galera_k8s_operator.Entities.Node.{NodeTargetState}
use galera_k8s_operator.Entities.Node.RoundTrip.{omitted_target}
use galera_k8s_operator.Storage.Interface.{ResourceStorage}
use galera_k8s_operator.StateApi.{Request, Response}
use galera_k8s_operator.StateApi.Server.{Handler, Router, setup_routes, IsDispatch, serve}
use galera_k8s_operator.StateApi.Server.Routing.{target_state_served}
use galera_k8s_operator.Agent.StateManager.{HttpClient, fetch_target_state, received}
use galera_k8s_operator.Agent.StateManager.Laws.{get_target_state_stored}

-- What is asked of the server
abbrev pub asked : String → Request
asked name = record { method = "GET"; body = empty; query_name = name }

module _ ⦃rfc : TimeText⦄ (st : ResourceStorage)
    (dispatch : Router → String → String → Option Handler) (unrouted : String → String → Response)
    (d : IsDispatch dispatch setup_routes) (host : String) (now : ℕ) (http : HttpClient) where
  open st use {S, Valid, view}

  -- A GET of the path "/api/v1/target-state" of the host, with this name in its query, can be built,
  -- and it reaches the router.
  abbrev pub IsFetched : String → S → Type 0
  IsFetched name s =
      let url = Text.◌++◌ "http://" (Text.◌++◌ host "/api/v1/target-state") in
      (req : http.Req) × (http.new_request "GET" url ≡ ok req)
      × (http.do_request
            (http.set_raw_query (http.encode (http.add "name" name (http.query req))) req)
          ≡ ok (
              received
                (serve st dispatch unrouted setup_routes now "/api/v1/target-state" (asked name)
                  s).0))

  -- If the router's search is as chi documents it and the client's GET of the target state for
  -- this name reaches the router: an agent whose server URL is the host and "/api/v1" and whose
  -- name is that of a stored resource that decodes to a node, in a valid storage and where the
  -- cluster size fits 64 bits, gets the target state that is stored, but that empty tasks or an
  -- empty configuration are nil.
  pub fetch_stored :
      (s : S) (name : String) (gen : GeneralTargetState) (node : NodeTargetState)
      → IsFetched name s
      → Valid s
      → name ≢ ""
      → view Node.kind name s ≡ some gen
      → gen.name ≡ name
      → Node.from_general gen ≡ ok node
      → IsInt64 node.spec.agent_target_state.galera.cluster_size
      → fetch_target_state http (Text.◌++◌ host "/api/v1") name
        ≡ ok (some (omitted_target node.spec.agent_target_state))
  unfolding fetch_target_state
  fetch_stored s name gen node c v n found own decoded fits =
      let (req, made, answer) = c in
      rw
        (
          append_assoc host "/api/v1" "/target-state",
          made,
          fetch_target_state,
          answer,
          target_state_served st dispatch unrouted d now (asked name) s refl,
        )
        (get_target_state_stored st (asked name) s gen node v refl n found own decoded fits)
