-- ===== src/Agent/HbCollector.antt =====
-- internal/agent/hb-collector/hb.go: how an agent makes its report, and the report that it keeps.
-- The rows of GetWsrepInfo are read in internal/agent/mariadb/service/mariadb.go.
pub mod Laws
pub mod Send
pub mod Delivery
use galera_k8s_operator.Base.{
  ℤ, pos, String, Bool, List, [], ◌∷◌, Option, none, some, Result, ok, err, ◌>>=◌, Table, lookup,
  assign,
}
use galera_k8s_operator.Entities.Agent.{
  TimeText, State, WsrepInfo, zero_state, zero_wsrep_info, zero_heartbeat,
}
use galera_k8s_operator.Entities.AgentJson.{encode_state, decode_state}

-- What the system answers during one call of `collect`: the host's address as text, whether the
-- flag file is there, and the rows of the query of MariaDB's status, each with its scan.
pub record Sight : Type 0 where
  pub current_ip : Result String
  pub flag_exists : Bool
  pub rows : Result (List (Result (String × String)))

-- m[k] of a map from strings to strings
abbrev or_empty : Option String → String
or_empty none = ""
or_empty (some v) = v

unfoldable pub raw_values : List (Result (String × String)) → Table String → Result (Table String)
raw_values [] m = ok m
raw_values (err e ∷ rows) m = err e
raw_values (ok (key, val) ∷ rows) m = raw_values rows (assign key val m)

-- `atoi` is strconv.Atoi.
module _ (atoi : String → Result ℤ) where
  -- utils.Atoi: what is no number is 0.
  unfoldable pub number : String → ℤ
  number s = elim (atoi s) [ ok i ↦ i | err e ↦ pos 0 ]

  unfoldable pub get_wsrep_info : Result (List (Result (String × String))) → Result WsrepInfo
  unfolding raw_values number
  get_wsrep_info answer = do
    rows ← answer
    values ← raw_values rows []
    ok (record {
      wsrep_cluster_status = or_empty (lookup "WSREP_CLUSTER_STATUS" values);
      wsrep_cluster_size = number (or_empty (lookup "WSREP_CLUSTER_SIZE" values));
      wsrep_incoming_addresses = or_empty (lookup "WSREP_INCOMING_ADDRESSES" values);
    })

-- The fields of HBCollector that are read; `last_state` is a pointer, nil at first.
pub record HbCollector : Type 0 where
  pub name : String
  pub version : String
  pub last_state : Option State

-- The text of a nil net.IP
abbrev ip_text : Result String → String
ip_text (ok ip) = ip
ip_text (err e) = "<nil>"

abbrev or_no_info : Result WsrepInfo → WsrepInfo
or_no_info (ok info) = info
or_no_info (err e) = zero_wsrep_info

module _ ⦃rfc : TimeText⦄ where
  -- State.Copy of a state that is not nil
  unfoldable pub copy_state : State → Result State
  copy_state s = encode_state s >>= λ j. decode_state j zero_state

abbrev ok_or_none : Result State → Option State
ok_or_none (ok s) = some s
ok_or_none (err e) = none

module _ (atoi : String → Result ℤ) where
  -- The report; `mariadb_status` is what GetState of the manager returns.
  unfoldable pub seen : HbCollector → String → Sight → State
  seen c mariadb_status v = record zero_state {
    ip_address = ip_text v.current_ip;
    name = c.name;
    version = c.version;
    wsrep_info = or_no_info (get_wsrep_info atoi v.rows);
    heartbeat = record zero_heartbeat { prepared = v.flag_exists; mariadb_status = mariadb_status };
  }

  module _ ⦃rfc : TimeText⦄ where
    -- collect: no error stops it, and the error of the copy is dropped.
    unfoldable pub collect : String → Sight → HbCollector → State × HbCollector
    unfolding seen copy_state
    collect mariadb_status v c =
        let state = seen c mariadb_status v in
        (state, record c { last_state = ok_or_none (copy_state state) })

    -- Collect: the report that is kept, made first if there is none. What it returns is the
    -- pointer, so `none` is nil.
    unfoldable pub collect_once : String → Sight → HbCollector → Option State × HbCollector
    collect_once mariadb_status v c = elim c.last_state [
      | some s ↦ (some s, c)
      | none ↦ let c' = (collect mariadb_status v c).1 in (c'.last_state, c')
    ]
