-- ===== src/Entities/AgentJson.antt =====
-- The JSON forms of internal/agent/entities and internal/agent/tasks, by the tags of the structs:
-- json.Marshal writes the fields in order, json.Unmarshal sends each member to the field of its key.
pub mod RoundTrip
pub mod Bounds
use galera_k8s_operator.Base.{
  ℕ, ℤ, String, Bool, List, [], ◌∷◌, ◌++◌, Option, none, some, if◌then◌else◌, Slice, Result, ok,
  err, time_error, json_error, ◌>>=◌, map_ok,
}
use galera_k8s_operator.Json.{
  Json, null, bool, int, str, obj, object, encode_slice, is_key, decode_string, decode_bool,
  decode_int, decode_slice, decode_struct, Members, done, member,
}
use galera_k8s_operator.Entities.Agent.{
  TimeText, Device, WsrepInfo, Heartbeat, State, GeneralTask, GaleraTargetState, TargetState,
  zero_device, zero_wsrep_info, zero_state, zero_task, zero_target_state,
}

abbrev pub encode_device : Device → Json
encode_device d =
    object (("name", str d.name) ∷ ("label", str d.label) ∷ ("mount_point", str d.mount_point) ∷ [])

set_device : String → Json → Device → Result Device
set_device k v d =
    if is_key k "name"
    then map_ok (λ x. record d { name = x }) (decode_string v d.name)
    else if is_key k "label"
    then map_ok (λ x. record d { label = x }) (decode_string v d.label)
    else if is_key k "mount_point"
    then map_ok (λ x. record d { mount_point = x }) (decode_string v d.mount_point)
    else ok d

abbrev pub encode_wsrep_info : WsrepInfo → Json
encode_wsrep_info w = object (
    ("WsrepClusterStatus", str w.wsrep_cluster_status)
    ∷ ("WsrepClusterSize", int w.wsrep_cluster_size)
    ∷ ("WsrepIncomingAddresses", str w.wsrep_incoming_addresses)
    ∷ [])

set_wsrep_info : String → Json → WsrepInfo → Result WsrepInfo
set_wsrep_info k v w =
    if is_key k "WsrepClusterStatus"
    then map_ok (λ x. record w { wsrep_cluster_status = x })
        (decode_string v w.wsrep_cluster_status)
    else if is_key k "WsrepClusterSize"
    then map_ok (λ x. record w { wsrep_cluster_size = x }) (decode_int v w.wsrep_cluster_size)
    else if is_key k "WsrepIncomingAddresses"
    then map_ok (λ x. record w { wsrep_incoming_addresses = x })
        (decode_string v w.wsrep_incoming_addresses)
    else ok w

set_heartbeat : String → Json → Heartbeat → Result Heartbeat
set_heartbeat k v h =
    if is_key k "mariadb_status"
    then map_ok (λ x. record h { mariadb_status = x }) (decode_string v h.mariadb_status)
    else if is_key k "wsrep_start_position"
    then map_ok (λ x. record h { wsrep_start_position = x })
        (decode_string v h.wsrep_start_position)
    else if is_key k "safe_to_bootstrap"
    then map_ok (λ x. record h { safe_to_bootstrap = x }) (decode_string v h.safe_to_bootstrap)
    else if is_key k "is_success"
    then map_ok (λ x. record h { is_success = x }) (decode_bool v h.is_success)
    else if is_key k "prepared"
    then map_ok (λ x. record h { prepared = x }) (decode_bool v h.prepared)
    else if is_key k "prepared_at"
    then map_ok (λ x. record h { prepared_at = x }) (decode_string v h.prepared_at)
    else if is_key k "updated"
    then map_ok (λ x. record h { updated = x }) (decode_string v h.updated)
    else ok h

-- The fields of the embedded Heartbeat stand beside those of the State.
abbrev pub state_object : State → Json → Json
state_object s stamp = object (
    ("name", str s.name)
    ∷ ("version", str s.version)
    ∷ ("timestamp", stamp)
    ∷ ("ip_address", str s.ip_address)
    ∷ ("devices", encode_slice encode_device s.devices)
    ∷ ("initialized", bool s.initialized)
    ∷ ("wsrep_info", encode_wsrep_info s.wsrep_info)
    ∷ ("mariadb_status", str s.heartbeat.mariadb_status)
    ∷ ("wsrep_start_position", str s.heartbeat.wsrep_start_position)
    ∷ ("safe_to_bootstrap", str s.heartbeat.safe_to_bootstrap)
    ∷ ("is_success", bool s.heartbeat.is_success)
    ∷ ("prepared", bool s.heartbeat.prepared)
    ∷ ("prepared_at", str s.heartbeat.prepared_at)
    ∷ ("updated", str s.heartbeat.updated)
    ∷ [])

module _ ⦃rfc : TimeText⦄ where
  unfoldable pub encode_time : ℕ → Result Json
  encode_time t = elim (rfc.format t) [ none ↦ err time_error | some s ↦ ok (str s) ]

  read_time : String → Result ℕ
  read_time s = elim (rfc.read s) [ none ↦ err time_error | some t ↦ ok t ]

  unfoldable pub decode_time : Json → ℕ → Result ℕ
  unfolding read_time
  decode_time null old = ok old
  decode_time (str s) old = read_time s
  decode_time _ old = err json_error

  unfoldable pub encode_state : State → Result Json
  unfolding encode_time
  encode_state s = do stamp ← encode_time s.timestamp; ok (state_object s stamp)

  set_state : String → Json → State → Result State
  unfolding set_heartbeat set_wsrep_info set_device decode_time
  set_state k v s =
      if is_key k "name"
      then map_ok (λ x. record s { name = x }) (decode_string v s.name)
      else if is_key k "version"
      then map_ok (λ x. record s { version = x }) (decode_string v s.version)
      else if is_key k "timestamp"
      then map_ok (λ x. record s { timestamp = x }) (decode_time v s.timestamp)
      else if is_key k "ip_address"
      then map_ok (λ x. record s { ip_address = x }) (decode_string v s.ip_address)
      else if is_key k "devices"
      then map_ok (λ x. record s { devices = x })
          (decode_slice (λ j. decode_struct set_device j zero_device) v s.devices)
      else if is_key k "initialized"
      then map_ok (λ x. record s { initialized = x }) (decode_bool v s.initialized)
      else if is_key k "wsrep_info"
      then map_ok (λ x. record s { wsrep_info = x }) (decode_struct set_wsrep_info v s.wsrep_info)
      else map_ok (λ x. record s { heartbeat = x }) (set_heartbeat k v s.heartbeat)

  unfoldable pub decode_state : Json → State → Result State
  unfolding set_state
  decode_state = decode_struct set_state

unfoldable pub encode_task : GeneralTask → Json
encode_task t = object (("id", str t.id) ∷ ("name", str t.name) ∷ ("payload", str t.payload) ∷ [])

set_task : String → Json → GeneralTask → Result GeneralTask
set_task k v t =
    if is_key k "id"
    then map_ok (λ x. record t { id = x }) (decode_string v t.id)
    else if is_key k "name"
    then map_ok (λ x. record t { name = x }) (decode_string v t.name)
    else if is_key k "payload"
    then map_ok (λ x. record t { payload = x }) (decode_string v t.payload)
    else ok t

unfoldable pub decode_task : Json → GeneralTask → Result GeneralTask
unfolding set_task
decode_task = decode_struct set_task

abbrev pub encode_galera : GaleraTargetState → Json
encode_galera g = object (
    ("cluster_size", int g.cluster_size)
    ∷ ("incoming_addresses", encode_slice str g.incoming_addresses)
    ∷ [])

set_galera : String → Json → GaleraTargetState → Result GaleraTargetState
set_galera k v g =
    if is_key k "cluster_size"
    then map_ok (λ x. record g { cluster_size = x }) (decode_int v g.cluster_size)
    else if is_key k "incoming_addresses"
    then map_ok (λ x. record g { incoming_addresses = x })
        (decode_slice (λ j. decode_string j "") v g.incoming_addresses)
    else ok g

-- A map: one member for each entry, decoded by adding to what the map holds.
to_object : List (String × String) → Members
to_object [] = done
to_object ((k, v) ∷ l) = member k (str v) (to_object l)

entries : Members → Result (List (String × String))
entries done = ok []
entries (member k v ms) =
    let rest = entries ms in decode_string v "" >>= λ s. rest >>= λ l. ok ((k, s) ∷ l)

old_entries : Slice (String × String) → List (String × String)
old_entries none = []
old_entries (some l) = l

decode_map : Json → Slice (String × String) → Result (Slice (String × String))
unfolding entries old_entries
decode_map null old = ok none
decode_map (obj ms) old = map_ok (λ l. some (old_entries old ++ l)) (entries ms)
decode_map _ old = err json_error

-- `omitempty`: the member of an empty slice or map is left out.
omit_empty {ℓ} : {A : Type ℓ} → String → (List A → Json) → Slice A → List (String × Json)
omit_empty k f none = []
omit_empty k f (some []) = []
omit_empty k f (some (x ∷ l)) = (k, f (x ∷ l)) ∷ []

unfoldable pub encode_target_state : TargetState → Json
unfolding omit_empty to_object encode_task
encode_target_state t = object (
    ("gather_hb", bool t.gather_hb)
    ∷ ("mariadb_started", bool t.mariadb_started)
    ∷ ("galera_new_cluster", bool t.galera_new_cluster)
    ∷ ("role", str t.node_role)
    ∷ ("galera", encode_galera t.galera)
    ∷ (omit_empty "tasks" (λ l. encode_slice encode_task (some l)) t.tasks
        ++ omit_empty "configuration" (λ l. obj (to_object l)) t.configuration))

set_target_state : String → Json → TargetState → Result TargetState
unfolding set_galera decode_map decode_task
set_target_state k v t =
    if is_key k "gather_hb"
    then map_ok (λ x. record t { gather_hb = x }) (decode_bool v t.gather_hb)
    else if is_key k "mariadb_started"
    then map_ok (λ x. record t { mariadb_started = x }) (decode_bool v t.mariadb_started)
    else if is_key k "galera_new_cluster"
    then map_ok (λ x. record t { galera_new_cluster = x }) (decode_bool v t.galera_new_cluster)
    else if is_key k "role"
    then map_ok (λ x. record t { node_role = x }) (decode_string v t.node_role)
    else if is_key k "galera"
    then map_ok (λ x. record t { galera = x }) (decode_struct set_galera v t.galera)
    else if is_key k "tasks"
    then map_ok (λ x. record t { tasks = x })
        (decode_slice (λ j. decode_task j zero_task) v t.tasks)
    else if is_key k "configuration"
    then map_ok (λ x. record t { configuration = x }) (decode_map v t.configuration)
    else ok t

unfoldable pub decode_target_state : Json → TargetState → Result TargetState
unfolding set_target_state
decode_target_state = decode_struct set_target_state
