-- ===== src/Agent/StateManager.antt =====
-- internal/agent/target-state-manager/manager.go: how an agent asks for its target state, and one
-- tick of RunForever.
pub mod Laws
pub mod Fetch
pub mod Options
use Prim.Native.String
use galera_k8s_operator.Base.{
  ℕ, String, Bool, true, false, Option, none, some, List, [], ◌∷◌, eqb, if◌then◌else◌, decimal,
  Error, new, wrap, Result, ok, err, ◌>>=◌, or_wrap, map_ok,
}
use galera_k8s_operator.Json.{RawMessage, raw, empty, junk, parse}
use galera_k8s_operator.Entities.Agent.{State, TargetState, zero_target_state}
use galera_k8s_operator.Entities.AgentJson.{decode_target_state}
use galera_k8s_operator.StateApi.{Response, Piece, text, error_text, json}
use galera_k8s_operator.Agent.Galera.{Env}
use galera_k8s_operator.Agent.Reconciler.{MariadbManager, World, reconcile}

-- What the client reads of an answer.
pub record Answer : Type 0 where
  pub status : ℕ
  pub body : RawMessage

-- GetTargetState, from what the HTTP client returns; `none` is nil.
unfoldable pub get_target_state : Result Answer → Result (Option TargetState)
get_target_state (err e) = err (wrap "failed to terget state" e)
get_target_state (ok a) =
    if eqb a.status 204
    then ok none
    else if eqb a.status 200
    then map_ok some (
        or_wrap "failed to decode task"
          (parse a.body >>= λ j. decode_target_state j zero_target_state))
    else err (new (String.◌++◌ "unexpected status code: " (decimal a.status)))

-- The bytes that a body holds, for the pieces that were written to it.
unfoldable pub body_of : List Piece → RawMessage
body_of [] = empty
body_of (json j ∷ []) = raw j
body_of (json j ∷ p ∷ pieces) = junk ""
body_of (text t ∷ pieces) = junk t
body_of (error_text t e ∷ pieces) = junk t

-- A response as the client reads it: the status is 200 unless another was written.
unfoldable pub received : Response → Answer
unfolding body_of
received r = record { status = elim r.status [ none ↦ 200 | some c ↦ c ]; body = body_of r.body }

-- The calls of net/http and net/url that build a request and send it
pub record HttpClient : Type 1 where
  pub Req : Type 0
  pub Values : Type 0
  pub new_request : String → String → Result Req
  pub query : Req → Values
  pub add : String → String → Values → Values
  pub encode : Values → String
  pub set_raw_query : String → Req → Req
  pub do_request : Req → Result Answer

-- GetTargetState as a whole
unfoldable pub fetch_target_state : HttpClient → String → String → Result (Option TargetState)
fetch_target_state http server_url agent_id =
    elim (http.new_request "GET" (String.◌++◌ "http://" (String.◌++◌ server_url "/target-state"))) [
      | err e ↦ err (wrap "failed to create request" e)
      | ok req ↦
          let q = http.add "name" agent_id (http.query req) in
          get_target_state (http.do_request (http.set_raw_query (http.encode q) req))
    ]

abbrev or_nil : Result (Option TargetState) → Option TargetState
or_nil (ok ts) = ts
or_nil (err e) = none

-- What RunForever waits for: a tick, with what the host, the server and the collector answer then,
-- or the end of the context
pub data Event : Type 0 where
  ticked : Env → Result Answer → Result State → Event
  context_done : Event

module _ (hash : String → String) (mdb : MariadbManager) where
  open mdb use {M}

  -- The errors are logged, and the reconciler is called in any case.
  unfoldable pub tick : Env → Result Answer → Result State → World M → World M
  tick env answer collected w =
      (reconcile hash mdb env (or_nil (get_target_state answer)) collected w).1

  -- RunForever, which returns nil at the end of the context
  unfoldable pub run_forever : List Event → World M → World M
  unfolding tick
  run_forever [] w = w
  run_forever (ticked env answer collected ∷ events) w =
      run_forever events (tick env answer collected w)
  run_forever (context_done ∷ events) w = w
