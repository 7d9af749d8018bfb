-- ===== src/Tests/Data.antt =====
-- What the tests share: two times, a cluster, its nodes, and storages that hold them.
use galera_k8s_operator.Base.{
  ℕ, String, ◌≡◌, refl, Bool, true, false, [], ◌∷◌, Option, none, some, ◌==◌, eqb, arith, pos,
  if◌then◌else◌, Bool-cases, inl, inr,
}
use galera_k8s_operator.Json.{Json, int, str, object, raw}
use galera_k8s_operator.Entities.Agent.{
  TimeText, State, zero_state, zero_galera, zero_wsrep_info, zero_heartbeat,
}
use galera_k8s_operator.Entities.AgentJson.{state_object}
use galera_k8s_operator.Entities.General.{GeneralTargetState, status_creating, status_active}
use galera_k8s_operator.Entities.Node
use galera_k8s_operator.Entities.Node.{NodeTargetState, node_resource, spec_object}
use galera_k8s_operator.Entities.Cluster
use galera_k8s_operator.Entities.Cluster.{ClusterTargetState}
use galera_k8s_operator.Storage.{Storage}

abbrev pub zero_time : String
zero_time = "0001-01-01T00:00:00Z"

abbrev pub five : String
five = "0001-01-01T00:00:00.000000005Z"

abbrev pub format_two : ℕ → Option String
format_two t = if eqb t 0 then some zero_time else if eqb t 5 then some five else none

abbrev pub read_two : String → Option ℕ
read_two s = if s == zero_time then some 0 else if s == five then some 5 else none

same_text : {s s' : String} → ◌≡◌ {A = Option String} (some s) (some s') → s ≡ s'
same_text e = cc e

pub read_format_two : (t : ℕ) (s : String) → format_two t ≡ some s → read_two s ≡ some t
read_format_two t s e = elim (Bool-cases (eqb t 0)) [
  | inl a ↦ let z : t ≡ 0 = ground arith in rw (← same_text (rw a at e), z) refl
  | inr a ↦ elim (Bool-cases (eqb t 5)) [
    | inl b ↦ let z : t ≡ 5 = ground arith in rw (← same_text (rw (a, b) at e), z) refl
    | inr b ↦ cc (rw (a, b) at e)
  ]
]

-- A clock that knows two times.
instance abbrev pub two_times : TimeText
two_times = record {
  format = format_two;
  read = read_two;
  format_zero = refl;
  read_of_format = read_format_two;
}

abbrev pub db : ClusterTargetState
db = record {
  version = Cluster.version;
  kind = Cluster.kind;
  name = "db";
  namespace = "";
  spec = record { replicas = pos 3; status = status_creating; image = "mariadb" };
}

abbrev pub db_resource : GeneralTargetState
db_resource = record {
  version = Cluster.version;
  kind = Cluster.kind;
  name = "db";
  spec = raw (
      object (
        ("replicas", int (pos 3))
        ∷ ("Status", str status_creating)
        ∷ ("Image", str "mariadb")
        ∷ []));
  meta = raw (object []);
}

abbrev pub node_of : String → String → String → State → NodeTargetState
node_of name status role report = record {
  version = Node.version;
  kind = Node.kind;
  name = name;
  spec = record {
    cluster_name = "db";
    image = "mariadb";
    status = status;
    agent_target_state = record {
      gather_hb = true;
      mariadb_started = false;
      galera_new_cluster = false;
      node_role = role;
      galera = zero_galera;
      tasks = none;
      configuration = none;
    };
    heartbeat = report;
  };
}

abbrev pub report_of : String → String → Bool → String → State
report_of name ip prepared cluster_status = record zero_state {
  name = name;
  timestamp = 5;
  ip_address = ip;
  wsrep_info = record zero_wsrep_info { wsrep_cluster_status = cluster_status };
  heartbeat = record zero_heartbeat { prepared = prepared };
}

-- The JSON of a report made at the time 5.
abbrev pub json_of : State → Json
json_of report = state_object report (str five)

abbrev pub resource_of : NodeTargetState → GeneralTargetState
resource_of n = node_resource n (spec_object n.spec (json_of n.spec.heartbeat))

abbrev pub empty_storage : Storage
empty_storage = record { gr = [] }

abbrev pub one_node : NodeTargetState → Storage
one_node n = record { gr = ("/node/node-1", resource_of n) ∷ [] }

-- An active primary; a primary and a secondary that are being created.
abbrev pub active_primary : NodeTargetState
active_primary =
    node_of "node-1" status_active "primary" (report_of "node-1" "10.0.0.1" true "Primary")

abbrev pub ready_primary : NodeTargetState
ready_primary =
    node_of "node-1" status_creating "primary" (report_of "node-1" "10.0.0.1" true "Primary")

abbrev pub new_primary : NodeTargetState
new_primary = node_of "node-1" status_creating "primary" (report_of "node-1" "10.0.0.1" false "")

abbrev pub new_secondary : NodeTargetState
new_secondary =
    node_of "node-1" status_creating "secondary" (report_of "node-1" "10.0.0.1" false "")

abbrev pub lost_secondary : NodeTargetState
lost_secondary = node_of "node-1" status_creating "secondary" (report_of "node-1" "" false "")
