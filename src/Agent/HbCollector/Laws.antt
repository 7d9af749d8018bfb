-- ===== src/Agent/HbCollector/Laws.antt =====
-- What the reconciler of an agent is told of MariaDB.
use galera_k8s_operator.Base.{
  ℤ, String, ◌≡◌, ◌≢◌, refl, sym, ap, ◌∙◌, true, List, [], Option, none, some, Result, ok, err,
  Error, wrap, ◌⊎◌, >>=-eq-ok, IsInt64, Result-cases, inl, inr,
}
use galera_k8s_operator.Json.{str}
use galera_k8s_operator.Entities.Agent.{TimeText, State, TargetState, WsrepInfo}
use galera_k8s_operator.Entities.AgentJson.{encode_state, encode_time, state_object}
use galera_k8s_operator.Entities.AgentJson.RoundTrip.{decode_state-encode_state}
use galera_k8s_operator.Agent.Manager.{state_running}
use galera_k8s_operator.Agent.Galera.{Env}
use galera_k8s_operator.Agent.Reconciler.{MariadbManager, World, role_primary, reconcile}
use galera_k8s_operator.Agent.Reconciler.Laws.{
  IsSettled, reconcile_by_role, apply_target_restarts, restart_cases,
}
use galera_k8s_operator.Agent.HbCollector.{
  Sight, HbCollector, number, raw_values, get_wsrep_info, seen, copy_state, collect, collect_once,
}

module _ ⦃rfc : TimeText⦄ where
  pub encode_unstamped :
      (s : State)
      → s.timestamp ≡ 0
      → encode_state s ≡ ok (state_object s (str "0001-01-01T00:00:00Z"))
  unfolding encode_state
  encode_unstamped s t = rw (t, rfc.format_zero, encode_time)

  copy_state_lem :
      (s : State) → s.timestamp ≡ 0 → IsInt64 s.wsrep_info.wsrep_cluster_size → copy_state s ≡ ok s
  unfolding copy_state
  copy_state_lem s t h = let e = encode_unstamped s t in rw e (decode_state-encode_state s _ h e)

ok-injective : {A : Type 0} {a b : A} → ◌≡◌ {A = Result A} (ok a) (ok b) → a ≡ b
ok-injective e = cc e

same_report : {A : Type 0} {a b : A} → ◌≡◌ {A = Option A} (some a) (some b) → a ≡ b
same_report e = cc e

module _ (atoi : String → Result ℤ)
    (atoi_fits : (s : String) (i : ℤ) → atoi s ≡ ok i → IsInt64 i) where
  number_fits : (s : String) → IsInt64 (number atoi s)
  unfolding number
  number_fits s = elim (Result-cases (atoi s)) [
    | inl (i, e) ↦ rw (e, number) (atoi_fits s i e)
    | inr (x, e) ↦ rw (e, number)
  ]

  info_fits :
      (answer : Result (List (Result (String × String)))) (info : WsrepInfo)
      → get_wsrep_info atoi answer ≡ ok info
      → IsInt64 info.wsrep_cluster_size
  unfolding get_wsrep_info
  info_fits answer info e =
      let (rows, a, rest) = >>=-eq-ok answer _ e in
      let (values, b, made) = >>=-eq-ok (raw_values rows []) _ rest in
      rw (← ok-injective made) (number_fits _)

  pub seen_fits :
      (c : HbCollector) (status : String) (v : Sight)
      → IsInt64 (seen atoi c status v).wsrep_info.wsrep_cluster_size
  unfolding seen
  seen_fits c status v = elim (Result-cases (get_wsrep_info atoi v.rows)) [
    | inl (info, e) ↦ rw (e, seen) (info_fits v.rows info e)
    | inr (x, e) ↦ rw (e, seen)
  ]

  module _ ⦃rfc : TimeText⦄ where
    -- A collection returns the report that it made of the system, and keeps the same report.
    pub collect_lem :
        (status : String) (v : Sight) (c : HbCollector)
        → collect atoi status v c
          ≡ (seen atoi c status v, record c { last_state = some (seen atoi c status v) })
    unfolding collect
    collect_lem status v c =
        rw (copy_state_lem (seen atoi c status v) (unfold seen in refl) (seen_fits c status v))

    -- Where Atoi returns numbers of 64 bits: once a collection was made, Collect returns its
    -- report, whatever the system is like by then, and keeps it.
    pub collect_once_kept :
        (status status' : String) (v v' : Sight) (c : HbCollector)
        → collect_once atoi status' v' (collect atoi status v c).1
          ≡ (some (seen atoi c status v), (collect atoi status v c).1)
    unfolding collect_once
    collect_once_kept status status' v v' c = rw (collect_lem status v c)

    -- The first call of Collect never returns nil: it makes the report.
    pub collect_once_fresh :
        (status : String) (v : Sight) (c : HbCollector)
        → c.last_state ≡ none
        → collect_once atoi status v c
          ≡ (some (seen atoi c status v), record c { last_state = some (seen atoi c status v) })
    unfolding collect_once seen
    collect_once_fresh status v c e = rw (e, collect_once, collect_lem status v c)

    module _ (hash : String → String) (hash_text : (t : String) → hash t ≢ "")
        (mdb : MariadbManager) where
      open mdb use {M}

      -- Where Atoi returns numbers of 64 bits and no text has an empty hash: on a host that is settled,
      -- and whose first report says that MariaDB does not run, a reconciliation for a primary that is
      -- to start a new cluster calls StopMariaDB, whatever the manager's state is by then. If that
      -- succeeds it calls RunMariaDB for a new cluster on what the manager has become, and if that
      -- succeeds too the flag file is touched. The error of either call is wrapped and ends the
      -- reconciliation.
      pub stale_report_restarts :
          (status status' : String) (v v' : Sight) (c : HbCollector) (env : Env) (ts : TargetState)
          (w : World M) (s : State)
          → IsSettled hash hash_text mdb env ts w
          → ts.galera_new_cluster ≡ true
          → ts.node_role ≡ role_primary
          → status ≢ state_running
          → (collect_once atoi status' v' (collect atoi status v c).1).0 ≡ some s
          → let after = reconcile hash mdb env (some ts) (ok s) w in
            let (stopped, m) = mdb.stop w.manager in
            let (ran, m') = mdb.run true m in
            ((x : Error) × (stopped ≡ err x)
              × (after ≡ (err (wrap "failed to stop mariadb" x), record w { manager = m })))
            ⊎ ((x : Error) × (stopped ≡ ok tt)
                × (ran ≡ err x)
                × (after ≡ (err (wrap "failed to run mariadb" x), record w { manager = m' })))
            ⊎ ((stopped ≡ ok tt)
                × (ran ≡ ok tt)
                × (after ≡ (ok tt, record w { manager = m'; prepared = true })))
      stale_report_restarts status status' v v' c env ts w s h a b n e =
          let same : seen atoi c status v ≡ s =
            same_report (sym (ap (λ p. p.0) (collect_once_kept status status' v v' c)) ∙ e) in
          let said : s.heartbeat.mariadb_status ≢ state_running = rw (← same) (unfold seen in n) in
          rw
            ((reconcile_by_role hash mdb env ts s w).0 a b
              ∙ apply_target_restarts hash hash_text mdb true env ts s w h said)
            (restart_cases hash mdb true env w h.touchable)
