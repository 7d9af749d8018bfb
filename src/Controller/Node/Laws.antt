-- ===== src/Controller/Node/Laws.antt =====
-- When the controller of nodes makes a node active, and what it writes.
use galera_k8s_operator.Base.{
  String, ◌≡◌, ◌≢◌, refl, ◌↔◌, ◌⊎◌, inl, inr, true, false, List, none, ◌==◌, eq_iff, arith, Result,
  ok, err, Result-cases, Bool-cases, assign,
}
use galera_k8s_operator.Json.{Json}
use galera_k8s_operator.Entities.Agent.{TimeText}
use galera_k8s_operator.Entities.AgentJson.{encode_state}
use galera_k8s_operator.Entities.General.{
  GeneralTargetState, ReconcileResult, status_creating, status_active,
}
use galera_k8s_operator.Entities.Node as Node_v1
use galera_k8s_operator.Entities.Node.{NodeTargetState, node_resource, spec_object}
use galera_k8s_operator.Entities.Node.RoundTrip.{to_general_lem}
use galera_k8s_operator.Storage.{Storage, resource_key, get_nodes_by_cluster}
use galera_k8s_operator.Storage.Laws.{stored, update_resource_lem}
use galera_k8s_operator.Controller.Outcome.{requeue, failed, succeeded}
use galera_k8s_operator.Controller.Node.{
  is_ready, as_primary, as_secondary, addresses, write_back, process_new_primary,
  process_new_secondary, process_new_node, with_status, update_encoded, finalize, finish, reconcile,
}

-- A node that is being created and whose agent has reported that it is in the primary component.
pub record IsReady (n : NodeTargetState) : Type 0 where
  pub creating : n.spec.status ≡ status_creating
  pub reported : n.spec.heartbeat.timestamp ≢ 0
  pub role :
      (n.spec.agent_target_state.node_role ≡ "primary")
      ⊎ (n.spec.agent_target_state.node_role ≡ "secondary")
  pub prepared : n.spec.heartbeat.heartbeat.prepared ≡ true
  pub in_primary : n.spec.heartbeat.wsrep_info.wsrep_cluster_status ≡ "Primary"

active_test : (s : String) → s ≡ status_creating → (status_active == s) ≡ false
active_test s h = rw h

module _ ⦃rfc : TimeText⦄ where
  -- A node in any other status than CREATING is left alone.
  pub reconcile_other_status :
      (r : GeneralTargetState) (n : NodeTargetState) (s : Storage)
      → Node_v1.from_general r ≡ ok n
      → n.spec.status ≢ status_creating
      → reconcile r s ≡ (requeue, s)
  unfolding reconcile finish
  reconcile_other_status r n s e h = elim (Bool-cases (n.spec.status == status_creating)) [
    | inl t ↦ absurd (h ((eq_iff _ _).0 t))
    | inr f ↦ rw (e, reconcile, f)
  ]

  update_encoded-success :
      (g : Result GeneralTargetState) (res : ReconcileResult) (s : Storage)
      → (update_encoded g res s).0.success ≡ res.success
  unfolding update_encoded
  update_encoded-success (err e) res s = ground arith
  update_encoded-success (ok g) res s = ground arith

  finalize-success :
      (res : ReconcileResult) (n : NodeTargetState) (s : Storage)
      → (finalize res n s).0.success ≡ res.success
  unfolding finalize
  finalize-success res n s = ground (
    arith,
    update_encoded-success (Node_v1.to_general (with_status n status_active)) res s,
    update_encoded-success (Node_v1.to_general (with_status n n.spec.status)) res s,
  )

  finish-success :
      (n : NodeTargetState) (p : ReconcileResult × Storage) → (finish n p).0.success ≡ p.0.success
  unfolding finish
  finish-success n (res, s) = ground (arith, finalize-success res n s)

  pub write_back-success : (n : NodeTargetState) (s : Storage) → (write_back n s).0.success ≡ false
  unfolding write_back
  write_back-success n s = ground arith

  primary-success :
      (n : NodeTargetState) (s : Storage) → (process_new_primary n s).0.success ≡ is_ready n
  unfolding process_new_primary
  primary-success n s = ground (arith, write_back-success (as_primary n) s)

  from_addresses-success :
      (n : NodeTargetState) (s : Storage) (ips : Result (List String))
      → (elim ips as (λ x. ReconcileResult × Storage) [
        | err e ↦ (failed e, s)
        | ok l ↦ write_back (as_secondary n l) s
      ]).0.success
        ≡ false
  from_addresses-success n s (ok l) = write_back-success (as_secondary n l) s
  from_addresses-success n s (err e) = refl

  secondary-success :
      (n : NodeTargetState) (s : Storage) → (process_new_secondary n s).0.success ≡ is_ready n
  unfolding process_new_secondary
  secondary-success n s = elim (Bool-cases (is_ready n)) [
    | inl t ↦ rw (t, process_new_secondary)
    | inr f ↦ elim (Result-cases (get_nodes_by_cluster n.spec.cluster_name s)) [
      | inl (nodes, e) ↦
          rw (f, e, process_new_secondary) (from_addresses-success n s (addresses nodes))
      | inr (x, e) ↦ rw (f, e, process_new_secondary)
    ]
  ]

  process_success_iff :
      (n : NodeTargetState) (s : Storage)
      → n.spec.status ≡ status_creating
      → ((process_new_node n s).0.success ≡ true) ↔ IsReady n
  unfolding process_new_node
  process_success_iff n s h = ground (
    arith,
    primary-success n s,
    secondary-success n s,
    eq_iff n.spec.agent_target_state.node_role "primary",
    eq_iff n.spec.agent_target_state.node_role "secondary",
    eq_iff n.spec.heartbeat.wsrep_info.wsrep_cluster_status "Primary",
  )

  -- A reconciliation of a resource that decodes to a node succeeds exactly when the node is being
  -- created and its agent has reported, with a known role, that it is prepared and in the primary
  -- component.
  pub reconcile_success_iff :
      (r : GeneralTargetState) (n : NodeTargetState) (s : Storage)
      → Node_v1.from_general r ≡ ok n
      → ((reconcile r s).0.success ≡ true) ↔ IsReady n
  unfolding reconcile
  reconcile_success_iff r n s e = elim (Bool-cases (n.spec.status == status_creating)) [
    | inl t ↦
        let (to, from) = process_success_iff n s ((eq_iff _ _).0 t) in
        let same = finish-success n (process_new_node n s) in rw (e, reconcile, t, same) (to, from)
    | inr f ↦
        rw (e, reconcile, f, finish-success n (requeue, s))
          (λ h. cc h, λ w. cc (rw ((eq_iff _ _).1 w.creating) at f))
  ]

  process_ready :
      (n : NodeTargetState) (s : Storage) → IsReady n → process_new_node n s ≡ (succeeded, s)
  unfolding process_new_node process_new_primary process_new_secondary
  process_ready n s w = ground (
    arith,
    eq_iff n.spec.agent_target_state.node_role "primary",
    eq_iff n.spec.agent_target_state.node_role "secondary",
    eq_iff n.spec.heartbeat.wsrep_info.wsrep_cluster_status "Primary",
  )

  -- The resource of a node made active whose report encodes to `j`.
  abbrev pub active_resource : NodeTargetState → Json → GeneralTargetState
  active_resource n j =
      let n' = with_status n status_active in node_resource n' (spec_object n'.spec j)

  finalize_creating :
      (n : NodeTargetState) (s : Storage) (j : Json)
      → n.spec.status ≡ status_creating
      → encode_state n.spec.heartbeat ≡ ok j
      → stored n.kind n.name s ≢ none
      → finalize succeeded n s ≡ (
        succeeded,
        record { gr = assign (resource_key n.kind n.name) (active_resource n j) s.gr },
      )
  unfolding finalize
  finalize_creating n s j h e p = rw (
    (eq_iff n.spec.status status_creating).1 h,
    finalize,
    active_test n.spec.status h,
    to_general_lem (with_status n status_active) j e,
    update_encoded,
    update_resource_lem (active_resource n j) s (record { spec_IsJson = tt; meta_IsJson = tt }) p,
  )

  pub reconcile_ready :
      (r : GeneralTargetState) (n : NodeTargetState) (s : Storage) (j : Json)
      → Node_v1.from_general r ≡ ok n
      → IsReady n
      → encode_state n.spec.heartbeat ≡ ok j
      → stored n.kind n.name s ≢ none
      → reconcile r s ≡ (
        succeeded,
        record { gr = assign (resource_key n.kind n.name) (active_resource n j) s.gr },
      )
  unfolding reconcile finish
  reconcile_ready r n s j e w f p = rw (
    e,
    reconcile,
    (eq_iff n.spec.status status_creating).1 w.creating,
    process_ready n s w,
    finalize_creating n s j w.creating f p,
  )
