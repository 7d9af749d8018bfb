-- ===== src/Entities/Node.antt =====
-- internal/entities/node/betav1/node.go: the target state of a node, to and from a resource.
pub mod RoundTrip
pub mod Bounds
use galera_k8s_operator.Base.{
  String, List, [], ◌∷◌, if◌then◌else◌, Result, ok, ◌>>=◌, map_ok, or_wrap,
}
use galera_k8s_operator.Json.{Json, str, object, is_key, decode_string, decode_struct, raw, parse}
use galera_k8s_operator.Entities.Agent.{TimeText, State, TargetState, zero_state, zero_target_state}
use galera_k8s_operator.Entities.AgentJson.{
  encode_state, decode_state, encode_target_state, decode_target_state,
}
use galera_k8s_operator.Entities.General.{GeneralTargetState}

abbrev pub version : String
version = "betav1"

abbrev pub kind : String
kind = "node"

-- nodev1.AgentTargetState and the agent's TargetState have the same fields and the same tags.
abbrev pub AgentTargetState : Type 0
AgentTargetState = TargetState

pub record Spec : Type 0 where
  pub cluster_name : String
  pub image : String
  pub status : String
  pub agent_target_state : AgentTargetState
  pub heartbeat : State

-- Meta has no fields.
pub record NodeTargetState : Type 0 where
  pub version : String
  pub name : String
  pub kind : String
  pub spec : Spec

abbrev pub zero_spec : Spec
zero_spec = record {
  cluster_name = "";
  image = "";
  status = "";
  agent_target_state = zero_target_state;
  heartbeat = zero_state;
}

abbrev pub zero_node : NodeTargetState
zero_node = record { version = ""; name = ""; kind = ""; spec = zero_spec }

-- An object, whatever its members, or `null`.
unfoldable pub decode_meta : Json → Result (Unit {0})
unfolding decode_struct
decode_meta j = decode_struct (λ k v m. ok m) j tt

abbrev pub spec_object : Spec → Json → Json
spec_object s heartbeat = object (
    ("cluster_name", str s.cluster_name)
    ∷ ("image", str s.image)
    ∷ ("status", str s.status)
    ∷ ("agent_target_state", encode_target_state s.agent_target_state)
    ∷ ("heartbeat", heartbeat)
    ∷ [])

abbrev pub node_resource : NodeTargetState → Json → GeneralTargetState
node_resource n spec = record {
  version = version;
  kind = n.kind;
  name = n.name;
  spec = raw spec;
  meta = raw (object []);
}

module _ ⦃rfc : TimeText⦄ where
  unfoldable pub encode_spec : Spec → Result Json
  encode_spec s = do heartbeat ← encode_state s.heartbeat; ok (spec_object s heartbeat)

  set_spec : String → Json → Spec → Result Spec
  set_spec k v s =
      if is_key k "cluster_name"
      then map_ok (λ x. record s { cluster_name = x }) (decode_string v s.cluster_name)
      else if is_key k "image"
      then map_ok (λ x. record s { image = x }) (decode_string v s.image)
      else if is_key k "status"
      then map_ok (λ x. record s { status = x }) (decode_string v s.status)
      else if is_key k "agent_target_state"
      then map_ok (λ x. record s { agent_target_state = x })
          (decode_target_state v s.agent_target_state)
      else if is_key k "heartbeat"
      then map_ok (λ x. record s { heartbeat = x }) (decode_state v s.heartbeat)
      else ok s

  unfoldable pub decode_spec : Json → Spec → Result Spec
  unfolding set_spec decode_struct decode_string is_key
  decode_spec = decode_struct set_spec

  -- FromGeneralTargetState: the node that it writes to its receiver.
  unfoldable pub from_general : GeneralTargetState → Result NodeTargetState
  unfolding decode_meta
  from_general state = do
    spec ← or_wrap "failed to unmarshal spec" (parse state.spec >>= λ j. decode_spec j zero_spec)
    or_wrap "failed to unmarshal meta" (parse state.meta >>= decode_meta) >>= λ _.
        ok (record { version = version; name = state.name; kind = kind; spec = spec })

  -- ToGeneralTargetState
  unfoldable pub to_general : NodeTargetState → Result GeneralTargetState
  unfolding encode_spec
  to_general n = do
    spec ← or_wrap "failed to marshal spec" (encode_spec n.spec)
    ok (node_resource n spec)
