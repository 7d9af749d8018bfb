-- ===== src/StateApi.antt =====
-- internal/state-api/server.go: the two handlers of the HTTP server, over any storage.
pub mod Heartbeats
pub mod TargetStates
pub mod Server
use galera_k8s_operator.Base.{
  ℕ, String, Bool, not, List, [], ◌∷◌, ◌++◌, Option, none, some, ◌==◌, if◌then◌else◌, Error, Result,
  ok, err, ◌>>=◌,
}
use galera_k8s_operator.Json.{Json, RawMessage, parse}
use galera_k8s_operator.Entities.Agent.{TimeText, State, zero_state}
use galera_k8s_operator.Entities.AgentJson.{decode_state, encode_target_state}
use galera_k8s_operator.Entities.General.{GeneralTargetState, zero_general}
use galera_k8s_operator.Entities.Node
use galera_k8s_operator.Entities.Node.{NodeTargetState, zero_node}
use galera_k8s_operator.Storage.Interface.{ResourceStorage}

-- What is read of an http.Request: its method, its body, and the query parameter `name`.
pub record Request : Type 0 where
  pub method : String
  pub body : RawMessage
  pub query_name : String

-- A piece of a response body: a fixed text, a text that ends in an error, or a JSON value.
pub data Piece : Type 0 where
  text : String → Piece
  error_text : String → Error → Piece
  json : Json → Piece

-- An http.ResponseWriter: the status is `none` until a header is written.
pub record Response : Type 0 where
  pub status : Option ℕ
  pub body : List Piece

abbrev pub no_response : Response
no_response = record { status = none; body = [] }

-- WriteHeader: only the first call counts.
unfoldable pub write_header : ℕ → Response → Response
write_header code w = elim w.status [ none ↦ record w { status = some code } | some c ↦ w ]

-- Write sends the header first, with status 200 if none is set.
unfoldable pub write_piece : Piece → Response → Response
unfolding write_header
write_piece p w = record (write_header 200 w) { body = w.body ++ p ∷ [] }

unfoldable pub http_error : Piece → ℕ → Response → Response
unfolding write_piece
http_error p code w = write_piece p (write_header code w)

-- `if err != nil { http.Error(…) }` with no return: the value is zero then, and the handler goes on.
abbrev pub or_report {ℓ} : {A : Type ℓ} → A → String → Result A → Response → A × Response
or_report zero_value prefix (ok a) w = (a, w)
or_report zero_value prefix (err e) w = (zero_value, http_error (error_text prefix e) 400 w)

abbrev pub with_heartbeat : NodeTargetState → State → NodeTargetState
with_heartbeat node hb = record node { spec = record node.spec { heartbeat = hb } }

module _ ⦃rfc : TimeText⦄ where
  -- handleHeartbeat up to the decoded node, from what GetGeneralResource returned.
  unfoldable pub find_node : Result GeneralTargetState → NodeTargetState × Response
  find_node found =
      let (gen, w1) = or_report zero_general "Bad request: " found no_response in
      let w2 = if gen.name == "" then http_error (text "node not found") 404 w1 else w1 in
      or_report zero_node "Bad request: " (Node.from_general gen) w2

  -- handleTargetState once the resource is found.
  unfoldable pub write_target_state : GeneralTargetState → Response
  write_target_state gen =
      let (node, w) = or_report zero_node "Bad request: " (Node.from_general gen) no_response in
      write_piece (json (encode_target_state node.spec.agent_target_state)) w

module _ ⦃rfc : TimeText⦄ (st : ResourceStorage) where
  open st use {S, get, update}

  -- The rest of the handler.
  unfoldable pub store_heartbeat : State → NodeTargetState → Response → S → Response × S
  store_heartbeat hb node w3 s =
      let (gen, w4) =
        or_report zero_general "Bad request: " (Node.to_general (with_heartbeat node hb)) w3 in
      let (r, s') = update gen s in
      let (u, w5) = or_report tt "Bad request: " r w4 in (write_header 200 w5, s')

  unfoldable pub record_heartbeat : State → S → Response × S
  record_heartbeat hb s =
      let (node, w) = find_node (get hb.name Node.kind s) in store_heartbeat hb node w s

  -- handleHeartbeat; `now` is the server's clock.
  unfoldable pub handle_heartbeat : ℕ → Request → S → Response × S
  handle_heartbeat now req s =
      if req.method == "POST"
      then elim (parse req.body >>= λ j. decode_state j zero_state) [
        | err e ↦ (http_error (error_text "Bad request: " e) 400 no_response, s)
        | ok hb ↦ record_heartbeat (record hb { timestamp = now }) s
      ]
      else (http_error (text "Method not allowed") 405 no_response, s)

  -- handleTargetState
  unfoldable pub handle_target_state : Request → S → Response
  handle_target_state req s =
      if req.method == "GET"
      then if req.query_name == ""
        then http_error (text "Name parameter is required") 400 no_response
        else elim (get req.query_name Node.kind s) [
          | err e ↦ http_error (error_text "Failed to get target state: " e) 500 no_response
          | ok gen ↦
              if gen.name == ""
              then http_error (text "Target state not found") 404 no_response
              else write_target_state gen
        ]
      else http_error (text "Method not allowed") 405 no_response
