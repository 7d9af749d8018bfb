-- ===== src/Agent/Reconciler.antt =====
-- internal/agent/target-state-handler: the reconciler of the agent, over any manager of MariaDB.
pub mod Laws
pub mod Options
use galera_k8s_operator.Base.{
  String, Bool, true, false, not, ◌&&◌, Option, none, some, ◌==◌, if◌then◌else◌, Error, new, wrap,
  Result, ok, err,
}
use galera_k8s_operator.Entities.Agent.{State, TargetState}
use galera_k8s_operator.Agent.Manager.{state_running}
use galera_k8s_operator.Agent.Galera.{Env, configure_galera}

abbrev pub role_primary : String
role_primary = "primary"

abbrev pub role_secondary : String
role_secondary = "secondary"

-- The interface agent.MariaDBManager; `run` takes the option GaleraNewCluster.
pub record MariadbManager : Type 1 where
  pub M : Type 0
  pub run : Bool → M → Result (Unit {0}) × M
  pub stop : M → Result (Unit {0}) × M

-- What the reconciler changes: the file galera.cnf, the flag file, and the manager.
pub record World (M : Type 0) : Type 0 where
  pub conf : Option String
  pub prepared : Bool
  pub manager : M

module _ (hash : String → String) (mdb : MariadbManager) where
  open mdb use {M, run, stop}

  -- utils.TouchFile(entities.PreparedFlagPath)
  unfoldable pub touch_flag : Env → World M → Result (Unit {0}) × World M
  touch_flag env w = elim env.touch_error [
    | some e ↦ (err (wrap "failed to touch prepared_flag_path" e), w)
    | none ↦ (ok tt, record w { prepared = true })
  ]

  unfoldable pub start_mariadb : Bool → Env → World M → Result (Unit {0}) × World M
  unfolding touch_flag
  start_mariadb galera_new_cluster env w =
      let (r, m) = run galera_new_cluster w.manager in
      elim r [
        | err e ↦ (err (wrap "failed to run mariadb" e), record w { manager = m })
        | ok x ↦ touch_flag env (record w { manager = m })
      ]

  unfoldable pub restart_mariadb : Bool → Env → World M → Result (Unit {0}) × World M
  unfolding start_mariadb
  restart_mariadb galera_new_cluster env w =
      let (r, m) = stop w.manager in
      elim r [
        | err e ↦ (err (wrap "failed to stop mariadb" e), record w { manager = m })
        | ok x ↦ start_mariadb galera_new_cluster env (record w { manager = m })
      ]

  -- NewCluster and JoinCluster differ in the option of RunMariaDB alone.
  unfoldable pub apply_target :
      Bool → Env → TargetState → State → World M → Result (Unit {0}) × World M
  apply_target galera_new_cluster env ts fact w =
      let (r, conf) = configure_galera hash env ts w.conf in
      elim r [
        | err e ↦ (err (wrap "failed to configure Galera" e), record w { conf = conf })
        | ok need_restart ↦
            if not need_restart && fact.heartbeat.mariadb_status == state_running
            then (ok tt, record w { conf = conf })
            else restart_mariadb galera_new_cluster env (record w { conf = conf })
      ]

  abbrev pub new_cluster : Env → TargetState → State → World M → Result (Unit {0}) × World M
  new_cluster = apply_target true

  abbrev pub join_cluster : Env → TargetState → State → World M → Result (Unit {0}) × World M
  join_cluster = apply_target false

  -- Reconcile; `collected` is what the collector of heartbeats returns.
  unfoldable pub reconcile :
      Env → Option TargetState → Result State → World M → Result (Unit {0}) × World M
  reconcile env none collected w = (err (new "nil target state"), w)
  reconcile env (some ts) collected w = elim collected [
    | err e ↦ (err (wrap "failed to collect hb state" e), w)
    | ok state ↦
        if ts.galera_new_cluster && ts.node_role == role_primary
        then new_cluster env ts state w
        else if ts.mariadb_started && ts.node_role == role_secondary
        then join_cluster env ts state w
        else (ok tt, w)
  ]
