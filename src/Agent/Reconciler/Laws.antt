-- ===== src/Agent/Reconciler/Laws.antt =====
-- When the reconciler restarts MariaDB.
use galera_k8s_operator.Base.{
  String, ◌≡◌, ◌≢◌, sym, ◌∙◌, ap, Bool, false, none, some, ◌==◌, eq_iff, Bool, true, ◌&&◌, eq_refl,
  items, ok, err, arith, Error, wrap, ◌⊎◌, inl, inr, Result-cases,
}
use galera_k8s_operator.Entities.Agent.{State, TargetState}
use galera_k8s_operator.Agent.Manager.{state_running}
use galera_k8s_operator.Agent.Galera.{Env, render, configure_galera}
use galera_k8s_operator.Agent.Galera.Laws.{configure_unchanged}
use galera_k8s_operator.Agent.Reconciler.{
  reconcile, role_primary, role_secondary, MariadbManager, World, restart_mariadb, start_mariadb,
  touch_flag, apply_target,
}

running_test : (s : String) → s ≢ state_running → (s == state_running) ≡ false
running_test s h = ground (arith, eq_iff s state_running)

primary_test :
    (b : Bool) (role : String) → b ≡ true → role ≡ role_primary → (b && role == role_primary) ≡ true
primary_test b role h e = rw (h, e, eq_refl role_primary)

secondary_test : (role : String) → role ≡ role_secondary → (role == role_primary) ≡ false
secondary_test role e = rw e

module _ (hash : String → String) (mdb : MariadbManager) where
  open mdb use {M}

  -- The target state decides between a new cluster, joining one, and nothing: a primary that is to
  -- start a cluster, a secondary whose MariaDB is to run, and a role that is neither of them.
  pub reconcile_by_role :
      (env : Env) (ts : TargetState) (s : State) (w : World M)
      → (ts.galera_new_cluster ≡ true
          → ts.node_role ≡ role_primary
          → reconcile hash mdb env (some ts) (ok s) w ≡ apply_target hash mdb true env ts s w)
        × (ts.mariadb_started ≡ true
            → ts.node_role ≡ role_secondary
            → reconcile hash mdb env (some ts) (ok s) w ≡ apply_target hash mdb false env ts s w)
        × (ts.node_role ≢ role_primary
            → ts.node_role ≢ role_secondary
            → reconcile hash mdb env (some ts) (ok s) w ≡ (ok tt, w))
  unfolding reconcile
  reconcile_by_role env ts s w = (
    λ a b. simp (primary_test ts.galera_new_cluster ts.node_role a b),
    λ a b. ground (arith, a, secondary_test ts.node_role b, eq_iff ts.node_role role_secondary),
    λ a b. ground (arith, eq_iff ts.node_role role_primary, eq_iff ts.node_role role_secondary),
  )

  -- A restart stops MariaDB, then runs it, then touches the flag, and the first error ends it.
  pub restart_cases :
      (b : Bool) (env : Env) (w : World M)
      → env.touch_error ≡ none
      → let (stopped, m) = mdb.stop w.manager in
        let (ran, m') = mdb.run b m in
        ((x : Error) × (stopped ≡ err x)
          × (restart_mariadb hash mdb b env w
              ≡ (err (wrap "failed to stop mariadb" x), record w { manager = m })))
        ⊎ ((x : Error) × (stopped ≡ ok tt)
            × (ran ≡ err x)
            × (restart_mariadb hash mdb b env w
                ≡ (err (wrap "failed to run mariadb" x), record w { manager = m' })))
        ⊎ ((stopped ≡ ok tt)
            × (ran ≡ ok tt)
            × (restart_mariadb hash mdb b env w
                ≡ (ok tt, record w { manager = m'; prepared = true })))
  unfolding restart_mariadb start_mariadb touch_flag
  restart_cases b env w f = elim (Result-cases (mdb.stop w.manager).0) [
    | inr (x, e) ↦ inl (x, e, rw (e, restart_mariadb))
    | inl (u, e) ↦ elim (Result-cases (mdb.run b (mdb.stop w.manager).1).0) [
      | inr (x, g) ↦ inr (inl (x, e, g, rw (e, restart_mariadb, start_mariadb, g)))
      | inl (v, g) ↦ inr (inr (e, g, rw (e, restart_mariadb, start_mariadb, g, touch_flag, f)))
    ]
  ]

module _ (hash : String → String) (hash_text : (t : String) → hash t ≢ "")
    (mdb : MariadbManager) where
  open mdb use {M, run, stop}

  -- The file holds what the target state asks for, and the system works.
  pub record IsSettled (env : Env) (ts : TargetState) (w : World M) : Type 0 where
    pub ip : String
    pub old : String
    pub at_ip : env.current_ip ≡ ok ip
    pub readable : env.read_error ≡ none
    pub touchable : env.touch_error ≡ none
    pub there : w.conf ≡ some old
    pub wanted : hash (render (items ts.galera.incoming_addresses) ip) ≡ hash old

  settled_lem :
      (env : Env) (ts : TargetState) (w : World M)
      → IsSettled env ts w
      → configure_galera hash env ts w.conf ≡ (ok false, w.conf)
  settled_lem env ts w h =
      ap (configure_galera hash env ts) h.there
      ∙ configure_unchanged hash hash_text env ts h.ip h.old h.at_ip h.readable h.wanted
      ∙ ap (λ c. (ok false, c)) (sym h.there)

  -- A settled host whose report says that MariaDB runs is left alone.
  pub apply_target_settled :
      (b : Bool) (env : Env) (ts : TargetState) (fact : State) (w : World M)
      → IsSettled env ts w
      → fact.heartbeat.mariadb_status ≡ state_running
      → apply_target hash mdb b env ts fact w ≡ (ok tt, w)
  unfolding apply_target
  apply_target_settled b env ts fact w h r =
      rw (settled_lem env ts w h, apply_target, (eq_iff _ _).1 r)
        (ap (λ p. (ok tt, record w { conf = p.1 })) (settled_lem env ts w h))

  -- A report that does not say that MariaDB runs makes the reconciler restart it, though the file is
  -- as it should be: what counts is the report, and not the state of the manager.
  pub apply_target_restarts :
      (b : Bool) (env : Env) (ts : TargetState) (fact : State) (w : World M)
      → IsSettled env ts w
      → fact.heartbeat.mariadb_status ≢ state_running
      → apply_target hash mdb b env ts fact w ≡ restart_mariadb hash mdb b env w
  unfolding apply_target
  apply_target_restarts b env ts fact w h r =
      rw (settled_lem env ts w h, apply_target, running_test fact.heartbeat.mariadb_status r)
        (ap (λ p. restart_mariadb hash mdb b env (record w { conf = p.1 }))
          (settled_lem env ts w h))
