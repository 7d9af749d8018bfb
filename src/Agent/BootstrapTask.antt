-- ===== src/Agent/BootstrapTask.antt =====
-- internal/agent/tasks/bootstrap and internal/agent/task-handler/handler.go: the task that makes a
-- host the first of a cluster. ConfigureGalera has the text of configureGalera of the target state
-- handler, over the payload's nodes.
pub mod Laws
use galera_k8s_operator.Base.{
  String, Bool, true, false, not, List, [], ◌∷◌, Option, none, ◌==◌, if◌then◌else◌, Slice, items,
  Error, new, wrap, Result, ok, err, ◌>>=◌, map_ok, or_wrap,
}
use galera_k8s_operator.Json.{Json, is_key, decode_string, decode_slice, decode_struct}
use galera_k8s_operator.Entities.Agent.{GeneralTask}
use galera_k8s_operator.Agent.Galera.{Env, render, configure_with}
use galera_k8s_operator.Agent.Reconciler.{MariadbManager, World}

pub record BootstrapPrimaryPayload : Type 0 where
  pub cluster_nodes : Slice String
  pub node_address : String

abbrev zero_payload : BootstrapPrimaryPayload
zero_payload = record { cluster_nodes = none; node_address = "" }

set_payload : String → Json → BootstrapPrimaryPayload → Result BootstrapPrimaryPayload
set_payload k v p =
    if is_key k "cluster_nodes"
    then map_ok (λ x. record p { cluster_nodes = x })
        (decode_slice (λ j. decode_string j "") v p.cluster_nodes)
    else if is_key k "node_address"
    then map_ok (λ x. record p { node_address = x }) (decode_string v p.node_address)
    else ok p

unfoldable pub decode_payload : Json → Result BootstrapPrimaryPayload
unfolding set_payload decode_struct decode_string is_key
decode_payload j = decode_struct set_payload j zero_payload

-- `hash` is the hexadecimal SHA-256 of a text, `parse_text` reads a text as JSON.
module _ (hash : String → String) (parse_text : String → Result Json) (mdb : MariadbManager) where
  open mdb use {M, run, stop}

  unfoldable pub configure_payload :
      Env → BootstrapPrimaryPayload → Option String → Result Bool × Option String
  configure_payload env pl conf = elim env.current_ip [
    | err e ↦ (err (wrap "failed to get current ip" e), conf)
    | ok ip ↦ configure_with hash env (render (items pl.cluster_nodes) ip) conf
  ]

  -- StopMariaDB, then RunMariaDB with the option GaleraNewCluster
  unfoldable pub restart_as_first : World M → Result (Unit {0}) × World M
  restart_as_first w =
      let (r, m) = stop w.manager in
      elim r [
        | err e ↦ (err (wrap "failed to stop mariadb" e), record w { manager = m })
        | ok x ↦
            let (r', m') = run true m in
            (or_wrap "failed to run mariadb" r', record w { manager = m' })
      ]

  -- Execute, once the payload is read
  unfoldable pub execute_payload :
      Env → BootstrapPrimaryPayload → World M → Result (Unit {0}) × World M
  execute_payload env pl w =
      let (r, conf) = configure_payload env pl w.conf in
      elim r [
        | err e ↦ (err (wrap "failed to configure Galera" e), record w { conf = conf })
        | ok need_restart ↦
            if need_restart
            then restart_as_first (record w { conf = conf })
            else (ok tt, record w { conf = conf })
      ]

  -- Execute
  unfoldable pub execute : Env → GeneralTask → World M → Result (Unit {0}) × World M
  execute env task w = elim (parse_text task.payload >>= decode_payload) [
    | err e ↦ (err (wrap "failed to unmarshal payload" e), w)
    | ok pl ↦ execute_payload env pl w
  ]

  -- Handle: the error of the task is logged and dropped.
  unfoldable pub handle : Env → GeneralTask → World M → Result (Unit {0}) × World M
  handle env task w =
      if task.name == "BootstrapPrimaryNodeTask"
      then (ok tt, (execute env task w).1)
      else (err (new "unknown task name"), w)
