-- ===== src/Agent/StateManager/Options.antt =====
-- internal/agent/target-state-manager/manager.go: the options and NewStateManager. The logger, the
-- HTTP client, the reconciler and the collector are of types that are not looked into.
use galera_k8s_operator.Base.{String, List, Option, none, some, apply_options}

pub record StateManagerOpts (L R B : Type 0) : Type 0 where
  pub agent_id : String
  pub server_url : String
  pub logger : Option L
  pub reconciler : Option R
  pub hb : Option B

pub record StateManager (L H R B : Type 0) : Type 0 where
  pub agent_id : String
  pub server_url : String
  pub logger : Option L
  pub http_client : H
  pub reconciler : Option R
  pub hb : Option B

module _ {L R B : Type 0} where
  unfoldable pub with_agent_id : String → StateManagerOpts L R B → StateManagerOpts L R B
  with_agent_id agent_id opts = record opts { agent_id = agent_id }

  unfoldable pub with_server_url : String → StateManagerOpts L R B → StateManagerOpts L R B
  with_server_url server_url opts = record opts { server_url = server_url }

  unfoldable pub with_logger : L → StateManagerOpts L R B → StateManagerOpts L R B
  with_logger logger opts = record opts { logger = some logger }

  unfoldable pub with_reconciler : R → StateManagerOpts L R B → StateManagerOpts L R B
  with_reconciler reconciler opts = record opts { reconciler = some reconciler }

  unfoldable pub with_hb_collector : B → StateManagerOpts L R B → StateManagerOpts L R B
  with_hb_collector hb opts = record opts { hb = some hb }

-- NewStateManager; `client` is `&http.Client{}`.
unfoldable pub new_state_manager :
    {L H R B : Type 0}
    → H
    → List (StateManagerOpts L R B → StateManagerOpts L R B)
    → StateManager L H R B
unfolding apply_options
new_state_manager client opts =
    let params =
      apply_options opts
        (record { agent_id = ""; server_url = ""; logger = none; reconciler = none; hb = none }) in
    record {
      agent_id = params.agent_id;
      server_url = params.server_url;
      logger = params.logger;
      http_client = client;
      reconciler = params.reconciler;
      hb = params.hb;
    }
