-- ===== src/Entities/Agent.antt =====
-- internal/agent/entities/entities.go and state.go, internal/agent/tasks/tasks.go: what an agent
-- reports (State) and the target state that it reads, with their JSON forms by struct tags.
use galera_k8s_operator.Base.{ℕ, ℤ, pos, String, ◌≡◌, Bool, false, Option, none, some, Slice}

-- time.Time counts nanoseconds since the zero time; `format` is Time.MarshalJSON, which refuses
-- years past 9999, and `read` is Time.UnmarshalJSON of a text. The zero time has a text of its own.
pub record TimeText : Type 0 where
  pub format : ℕ → Option String
  pub read : String → Option ℕ
  pub format_zero : format 0 ≡ some "0001-01-01T00:00:00Z"
  pub read_of_format : (t : ℕ) (s : String) → format t ≡ some s → read s ≡ some t

pub record Device : Type 0 where
  pub name : String
  pub label : String
  pub mount_point : String

pub record WsrepInfo : Type 0 where
  pub wsrep_cluster_status : String
  pub wsrep_cluster_size : ℤ
  pub wsrep_incoming_addresses : String

pub record Heartbeat : Type 0 where
  pub mariadb_status : String
  pub wsrep_start_position : String
  pub safe_to_bootstrap : String
  pub is_success : Bool
  pub prepared : Bool
  pub prepared_at : String
  pub updated : String

pub record State : Type 0 where
  pub name : String
  pub version : String
  pub timestamp : ℕ
  pub ip_address : String
  pub devices : Slice Device
  pub initialized : Bool
  pub wsrep_info : WsrepInfo
  pub heartbeat : Heartbeat

pub record GeneralTask : Type 0 where
  pub id : String
  pub name : String
  pub payload : String

pub record GaleraTargetState : Type 0 where
  pub cluster_size : ℤ
  pub incoming_addresses : Slice String

-- The map `Configuration` is the list of what was written to it; a later entry of a key counts.
pub record TargetState : Type 0 where
  pub gather_hb : Bool
  pub mariadb_started : Bool
  pub galera_new_cluster : Bool
  pub node_role : String
  pub galera : GaleraTargetState
  pub tasks : Slice GeneralTask
  pub configuration : Slice (String × String)

-- The zero values of Go.
abbrev pub zero_device : Device
zero_device = record { name = ""; label = ""; mount_point = "" }

abbrev pub zero_wsrep_info : WsrepInfo
zero_wsrep_info = record {
  wsrep_cluster_status = "";
  wsrep_cluster_size = pos 0;
  wsrep_incoming_addresses = "";
}

abbrev pub zero_heartbeat : Heartbeat
zero_heartbeat = record {
  mariadb_status = "";
  wsrep_start_position = "";
  safe_to_bootstrap = "";
  is_success = false;
  prepared = false;
  prepared_at = "";
  updated = "";
}

abbrev pub zero_state : State
zero_state = record {
  name = "";
  version = "";
  timestamp = 0;
  ip_address = "";
  devices = none;
  initialized = false;
  wsrep_info = zero_wsrep_info;
  heartbeat = zero_heartbeat;
}

abbrev pub zero_task : GeneralTask
zero_task = record { id = ""; name = ""; payload = "" }

abbrev pub zero_galera : GaleraTargetState
zero_galera = record { cluster_size = pos 0; incoming_addresses = none }

abbrev pub zero_target_state : TargetState
zero_target_state = record {
  gather_hb = false;
  mariadb_started = false;
  galera_new_cluster = false;
  node_role = "";
  galera = zero_galera;
  tasks = none;
  configuration = none;
}
