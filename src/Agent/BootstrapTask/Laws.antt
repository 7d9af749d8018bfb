-- ===== src/Agent/BootstrapTask/Laws.antt =====
-- What the task does when it is handled again.
use galera_k8s_operator.Base.{
  String, ◌≡◌, ◌≢◌, refl, sym, ◌∙◌, ap, Bool, true, false, Option, none, eq_iff, Result, ok, ◌>>=◌,
  arith, Result-cases, inl, inr,
}
use galera_k8s_operator.Json.{Json}
use galera_k8s_operator.Entities.Agent.{GeneralTask, TargetState, zero_target_state, zero_galera}
use galera_k8s_operator.Agent.Galera.{Env, configure_galera}
use galera_k8s_operator.Agent.Galera.Laws.{configure_settles}
use galera_k8s_operator.Agent.Reconciler.{MariadbManager, World}
use galera_k8s_operator.Agent.BootstrapTask.{
  BootstrapPrimaryPayload, decode_payload, configure_payload, restart_as_first, execute_payload,
  execute, handle,
}

-- A target state with the nodes of a payload
abbrev of_payload : BootstrapPrimaryPayload → TargetState
of_payload pl = record zero_target_state {
  galera = record zero_galera { incoming_addresses = pl.cluster_nodes };
}

module _ (hash : String → String) (hash_text : (t : String) → hash t ≢ "")
    (parse_text : String → Result Json) (mdb : MariadbManager) where
  open mdb use {M}

  configure_same :
      (env : Env) (pl : BootstrapPrimaryPayload) (conf : Option String)
      → configure_payload hash parse_text mdb env pl conf
        ≡ configure_galera hash env (of_payload pl) conf
  unfolding configure_payload configure_galera
  configure_same env pl conf = refl

  restart_conf : (w : World M) → (restart_as_first hash parse_text mdb w).1.conf ≡ w.conf
  unfolding restart_as_first
  restart_conf w = elim (Result-cases (mdb.stop w.manager).0) [
    | inl (x, e) ↦ rw (e, restart_as_first)
    | inr (x, e) ↦ rw (e, restart_as_first)
  ]

  -- The part of Execute that follows the configuration leaves the file alone.
  executed_conf :
      (env : Env) (pl : BootstrapPrimaryPayload) (w : World M)
      → (execute_payload hash parse_text mdb env pl w).1.conf
        ≡ (configure_payload hash parse_text mdb env pl w.conf).1
  unfolding execute_payload
  executed_conf env pl w =
      let conf = (configure_payload hash parse_text mdb env pl w.conf).1 in
      elim (Result-cases (configure_payload hash parse_text mdb env pl w.conf).0) [
        | inr (x, e) ↦ rw (e, execute_payload)
        | inl (true, e) ↦ rw (e, execute_payload) (restart_conf (record w { conf = conf }))
        | inl (false, e) ↦ rw (e, execute_payload)
      ]

  configured :
      (env : Env) (pl : BootstrapPrimaryPayload) (w : World M)
      → (execute_payload hash parse_text mdb env pl w).0 ≡ ok tt
      → (b : Bool) × ((configure_payload hash parse_text mdb env pl w.conf).0 ≡ ok b)
  unfolding execute_payload
  configured env pl w h =
      elim (Result-cases (configure_payload hash parse_text mdb env pl w.conf).0) [
        | inl (b, e) ↦ (b, e)
        | inr (x, e) ↦ cc (rw (e, execute_payload) at h)
      ]

  unchanged :
      (env : Env) (pl : BootstrapPrimaryPayload) (w : World M)
      → configure_payload hash parse_text mdb env pl w.conf ≡ (ok false, w.conf)
      → execute_payload hash parse_text mdb env pl w ≡ (ok tt, w)
  unfolding execute_payload
  unchanged env pl w e = rw (e, execute_payload) (ap (λ p. (ok tt, record w { conf = p.1 })) e)

  execute_payload_settles :
      (env env' : Env) (pl : BootstrapPrimaryPayload) (ip : String) (w : World M)
      → env.current_ip ≡ ok ip
      → env'.current_ip ≡ ok ip
      → env'.read_error ≡ none
      → (execute_payload hash parse_text mdb env pl w).0 ≡ ok tt
      → let w' = (execute_payload hash parse_text mdb env pl w).1 in
        execute_payload hash parse_text mdb env' pl w' ≡ (ok tt, w')
  execute_payload_settles env env' pl ip w a a' r h =
      let conf = (configure_payload hash parse_text mdb env pl w.conf).1 in
      let (b, e) = configured env pl w h in
      let first : configure_galera hash env (of_payload pl) w.conf ≡ (ok b, conf) =
        sym (configure_same env pl w.conf) ∙ ap (λ x. (x, conf)) e in
      let again =
        configure_settles hash hash_text env env' (of_payload pl) ip w.conf conf b a a' r first in
      let w' = (execute_payload hash parse_text mdb env pl w).1 in
      unchanged env' pl w' (
        configure_same env' pl w'.conf
        ∙ ap (configure_galera hash env' (of_payload pl)) (executed_conf env pl w)
        ∙ again
        ∙ ap (λ c. (ok false, c)) (sym (executed_conf env pl w)))

  execute_read :
      (env : Env) (task : GeneralTask) (pl : BootstrapPrimaryPayload) (w : World M)
      → (parse_text task.payload >>= decode_payload) ≡ ok pl
      → execute hash parse_text mdb env task w ≡ execute_payload hash parse_text mdb env pl w
  unfolding execute
  execute_read env task pl w e = rw (e, execute)

  handle_known :
      (env : Env) (task : GeneralTask) (w : World M)
      → task.name ≡ "BootstrapPrimaryNodeTask"
      → handle hash parse_text mdb env task w ≡ (ok tt, (execute hash parse_text mdb env task w).1)
  unfolding handle
  handle_known env task w e = ground (arith, eq_iff task.name "BootstrapPrimaryNodeTask")

  -- Where a bootstrap task whose payload can be read was executed without error, at a known address,
  -- handling it again at the same address, with the file readable, changes nothing.
  pub handle_settles :
      (env env' : Env) (task : GeneralTask) (pl : BootstrapPrimaryPayload) (ip : String)
      (w : World M)
      → task.name ≡ "BootstrapPrimaryNodeTask"
      → (parse_text task.payload >>= decode_payload) ≡ ok pl
      → env.current_ip ≡ ok ip
      → env'.current_ip ≡ ok ip
      → env'.read_error ≡ none
      → (execute hash parse_text mdb env task w).0 ≡ ok tt
      → let w' = (handle hash parse_text mdb env task w).1 in
        handle hash parse_text mdb env' task w' ≡ (ok tt, w')
  handle_settles env env' task pl ip w n p a a' r h =
      let once = execute_read env task pl w p in
      let w' = (handle hash parse_text mdb env task w).1 in
      let made : w' ≡ (execute_payload hash parse_text mdb env pl w).1 =
        ap (λ x. x.1) (handle_known env task w n ∙ ap (λ x. (ok tt, x.1)) once) in
      let again = execute_payload_settles env env' pl ip w a a' r (sym (ap (λ x. x.0) once) ∙ h) in
      handle_known env' task w' n
      ∙ ap (λ x. (ok tt, x.1))
          (execute_read env' task pl w' p
            ∙ ap (execute_payload hash parse_text mdb env' pl) made
            ∙ again)
      ∙ ap (λ x. (ok tt, x)) (sym made)
