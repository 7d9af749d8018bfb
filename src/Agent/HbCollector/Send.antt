-- ===== src/Agent/HbCollector/Send.antt =====
-- internal/agent/hb-collector/hb.go: the options, and how a report is sent at a tick of the ticker.
use galera_k8s_operator.Base.{
  ℤ, ℕ, String, List, [], ◌∷◌, Option, none, some, Result, ok, err, apply_options,
}
use Prim.Native.String as Text
use galera_k8s_operator.Json.{RawMessage, raw}
use galera_k8s_operator.Entities.Agent.{TimeText, State}
use galera_k8s_operator.Entities.AgentJson.{encode_state}
use galera_k8s_operator.Agent.HbCollector.{Sight, HbCollector, collect}

-- The logger, the HTTP client and the manager of MariaDB are of types that are not looked into.
pub record HbCollectorOpts (L H M : Type 0) : Type 0 where
  pub logger : Option L
  pub http_client : Option H
  pub mariadb_manager : Option M
  pub state_url : String
  pub name : String
  pub version : String

-- All that New sets; `collector` has the fields that `collect` uses.
pub record Collector (L H M : Type 0) : Type 0 where
  pub collector : HbCollector
  pub logger : Option L
  pub http_client : H
  pub mariadb_manager : Option M
  pub state_url : String

module _ {L H M : Type 0} where
  unfoldable pub with_logger : L → HbCollectorOpts L H M → HbCollectorOpts L H M
  with_logger logger opts = record opts { logger = some logger }

  unfoldable pub with_http_client : H → HbCollectorOpts L H M → HbCollectorOpts L H M
  with_http_client http_client opts = record opts { http_client = some http_client }

  unfoldable pub with_mariadb_manager : M → HbCollectorOpts L H M → HbCollectorOpts L H M
  with_mariadb_manager mariadb_manager opts = record opts { mariadb_manager = some mariadb_manager }

  unfoldable pub with_state_url : String → HbCollectorOpts L H M → HbCollectorOpts L H M
  with_state_url state_url opts = record opts { state_url = state_url }

  unfoldable pub with_name : String → HbCollectorOpts L H M → HbCollectorOpts L H M
  with_name name opts = record opts { name = name }

  unfoldable pub with_version : String → HbCollectorOpts L H M → HbCollectorOpts L H M
  with_version version opts = record opts { version = version }

  -- New; `default_client` is `&http.Client{}`.
  unfoldable pub new_hb_collector :
      H → List (HbCollectorOpts L H M → HbCollectorOpts L H M) → Collector L H M
  unfolding apply_options
  new_hb_collector default_client opts =
      let params = apply_options opts (record {
        logger = none;
        http_client = none;
        mariadb_manager = none;
        state_url = "";
        name = "";
        version = "";
      }) in
      record {
        collector = record { name = params.name; version = params.version; last_state = none };
        logger = params.logger;
        http_client = elim params.http_client [ none ↦ default_client | some h ↦ h ];
        mariadb_manager = params.mariadb_manager;
        state_url = params.state_url;
      }

-- What Start waits for: a tick, with what Atoi reads, what MariaDB's state is and what else is seen,
-- or the end of the context
pub data Event : Type 0 where
  ticked : (String → Result ℤ) → String → Sight → Event
  context_done : Event

-- `post` is the client's Post of JSON to a URL, which answers with a status or fails; `W` is the
-- world that it acts on.
module _ ⦃rfc : TimeText⦄ {W : Type 0} (post : String → RawMessage → W → Result ℕ × W) where
  -- send: the status of the answer is logged and no more.
  unfoldable pub send : String → State → W → Result (Unit {0}) × W
  send state_url state w = elim (encode_state state) [
    | err e ↦ (err e, w)
    | ok text ↦
        let (answer, w') =
          post (Text.◌++◌ "http://" (Text.◌++◌ state_url "/heartbeat")) (raw text) w in
        elim answer [ err e ↦ (err e, w') | ok status ↦ (ok tt, w') ]
  ]

  -- What Start does at a tick: an error of `send` is logged and no more.
  unfoldable pub tick :
      (String → Result ℤ) → String → String → Sight → HbCollector → W → HbCollector × W
  unfolding send
  tick atoi state_url mariadb_status v c w =
      let (state, c') = collect atoi mariadb_status v c in (c', (send state_url state w).1)

  -- Start for a state URL, which returns nil at the end of the context
  unfoldable pub start : String → List Event → HbCollector → W → HbCollector × W
  unfolding tick
  start state_url [] c w = (c, w)
  start state_url (ticked atoi mariadb_status v ∷ events) c w =
      let (c', w') = tick atoi state_url mariadb_status v c w in start state_url events c' w'
  start state_url (context_done ∷ events) c w = (c, w)
