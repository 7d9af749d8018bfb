-- ===== src/StateApi/TargetStates.antt =====
-- What the handler of target states answers, and what an agent reads from it.
use galera_k8s_operator.Base.{
  String, ◌≡◌, ◌≢◌, false, [], ◌∷◌, none, some, ◌==◌, eq_iff, ok, arith, IsInt64,
}
use galera_k8s_operator.Entities.Agent.{TimeText, zero_target_state}
use galera_k8s_operator.Entities.AgentJson.{encode_target_state, decode_target_state}
use galera_k8s_operator.Entities.AgentJson.RoundTrip.{decode_target_state-encode_target_state}
use galera_k8s_operator.Entities.General.{GeneralTargetState}
use galera_k8s_operator.Entities.Node
use galera_k8s_operator.Entities.Node.{NodeTargetState}
use galera_k8s_operator.Entities.Node.RoundTrip.{omitted_target}
use galera_k8s_operator.Storage.Interface.{ResourceStorage}
use galera_k8s_operator.StateApi.{
  Request, no_response, json, text, http_error, write_piece, write_target_state,
  handle_target_state,
}

kind_named : ◌≢◌ {A = String} Node.kind ""
kind_named = ground (arith, eq_iff Node.kind "")

name_test : (n : String) → n ≢ "" → (n == "") ≡ false
name_test n h = ground (arith, eq_iff n "")

module _ ⦃rfc : TimeText⦄ (st : ResourceStorage) where
  open st use {S, get, Valid, view, get_of_view}

  module _ (req : Request) (s : S) (v : Valid s) (method : req.method ≡ "GET")
      (named : req.query_name ≢ "") where
    -- For a GET with the name of a stored resource that decodes to a node, in a valid storage,
    -- the answer is 200 with the agent's target state as JSON. The agent decodes that state from
    -- it, where the cluster size fits 64 bits, but that empty tasks or an empty configuration
    -- come back nil.
    pub handle_target_state_found :
        (gen : GeneralTargetState) (node : NodeTargetState)
        → view Node.kind req.query_name s ≡ some gen
        → gen.name ≡ req.query_name
        → Node.from_general gen ≡ ok node
        → IsInt64 node.spec.agent_target_state.galera.cluster_size
        → (handle_target_state st req s ≡ record {
          status = some 200;
          body = json (encode_target_state node.spec.agent_target_state) ∷ [];
        })
          × (decode_target_state
                (encode_target_state node.spec.agent_target_state)
                zero_target_state
              ≡ ok (omitted_target node.spec.agent_target_state))
    unfolding handle_target_state write_target_state write_piece
    handle_target_state_found gen node found own decoded fits = (
      rw (
        (eq_iff req.method "GET").1 method,
        handle_target_state,
        name_test req.query_name named,
        get_of_view req.query_name Node.kind s v named kind_named,
        found,
        name_test gen.name (rw own named),
        decoded,
        write_target_state,
      ),
      decode_target_state-encode_target_state node.spec.agent_target_state fits,
    )

    -- For a node that is not stored the answer is 404.
    pub handle_target_state_missing :
        view Node.kind req.query_name s ≡ none
        → handle_target_state st req s ≡ http_error (text "Target state not found") 404 no_response
    unfolding handle_target_state
    handle_target_state_missing missing = rw (
      (eq_iff req.method "GET").1 method,
      handle_target_state,
      name_test req.query_name named,
      get_of_view req.query_name Node.kind s v named kind_named,
      missing,
    )
