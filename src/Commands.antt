-- ===== src/Commands.antt =====
-- cmd: how the three commands build their parts, and internal/agent/agent.go. A logger, a storage, a
-- controller, an HTTP client, a manager of MariaDB and a reconciler are of types that are not looked
-- into.
use galera_k8s_operator.Base.{String, [], ◌∷◌}
use galera_k8s_operator.ControllerManager.{
  ControllerManager, new_controller_manager, with_logger, with_storage, register_controller,
}
use galera_k8s_operator.Agent.HbCollector.Send as Hb_collector
use galera_k8s_operator.Agent.HbCollector.Send.{Collector, new_hb_collector}
use galera_k8s_operator.Agent.Reconciler.Options as Target_state_handler
use galera_k8s_operator.Agent.Reconciler.Options.{Reconciler, new_reconciler}
use galera_k8s_operator.Agent.StateManager.Options as Target_state_manager
use galera_k8s_operator.Agent.StateManager.Options.{StateManager, new_state_manager}

module _ {S L C : Type 0} where
  -- main of cmd/controller-manager: the manager that is run
  unfoldable pub controller_manager : L → S → C → C → ControllerManager S L C
  unfolding new_controller_manager with_logger with_storage register_controller
  controller_manager logger storage cluster_controller node_controller =
      let c = new_controller_manager (with_logger logger ∷ with_storage storage ∷ []) in
      register_controller "node" node_controller
        (register_controller "cluster" cluster_controller c)

  -- main of cmd/k8s-controller-manager, which leaves the controller of nodes out
  unfoldable pub k8s_controller_manager : L → S → C → ControllerManager S L C
  unfolding new_controller_manager with_logger with_storage register_controller
  k8s_controller_manager logger storage cluster_controller =
      let c = new_controller_manager (with_logger logger ∷ with_storage storage ∷ []) in
      register_controller "cluster" cluster_controller c

-- What main of cmd/mariadb-wrapper-agent reads of the configuration
pub record Config : Type 0 where
  pub state_api_url : String
  pub name : String
  pub version : String

-- Agent of internal/agent/agent.go, over the type of a manager
pub record Agent (M : Type 0) : Type 0 where
  pub id : String
  pub mariadb_manager : M

unfoldable pub new_node_agent : {M : Type 0} → String → M → Agent M
new_node_agent id mariadb_manager = record { id = id; mariadb_manager = mariadb_manager }

module _ {L H M : Type 0} where
  -- main of cmd/mariadb-wrapper-agent: the collector
  unfoldable pub agent_collector : Config → H → L → M → Collector L H M
  unfolding new_hb_collector
  agent_collector conf client logger mariadb_manager = new_hb_collector client (
      Hb_collector.with_logger logger
      ∷ Hb_collector.with_mariadb_manager mariadb_manager
      ∷ Hb_collector.with_state_url conf.state_api_url
      ∷ Hb_collector.with_name conf.name
      ∷ Hb_collector.with_version conf.version
      ∷ [])

module _ {L H R B : Type 0} where
  -- and the manager of target states
  unfoldable pub agent_state_manager : Config → H → L → R → B → StateManager L H R B
  unfolding new_state_manager
  agent_state_manager conf client logger reconciler hb = new_state_manager client (
      Target_state_manager.with_agent_id conf.name
      ∷ Target_state_manager.with_server_url conf.state_api_url
      ∷ Target_state_manager.with_logger logger
      ∷ Target_state_manager.with_reconciler reconciler
      ∷ Target_state_manager.with_hb_collector hb
      ∷ [])

module _ {L M B : Type 0} where
  -- the reconciler
  unfoldable pub agent_reconciler : L → M → B → Reconciler L M B
  unfolding new_reconciler
  agent_reconciler logger mariadb_manager hb_collector = new_reconciler (
      Target_state_handler.with_logger logger
      ∷ Target_state_handler.with_manager mariadb_manager
      ∷ Target_state_handler.with_hb hb_collector
      ∷ [])
