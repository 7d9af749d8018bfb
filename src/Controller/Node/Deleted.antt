-- ===== src/Controller/Node/Deleted.antt =====
-- The controller of nodes at a resource that was listed before it was deleted.
use galera_k8s_operator.Base.{
  String, ◌≡◌, refl, ◌∙◌, inl, inr, none, ◌==◌, Result, ok, err, arith, Bool-cases, Result-cases,
}
use galera_k8s_operator.Entities.Agent.{TimeText}
use galera_k8s_operator.Entities.General.{
  GeneralTargetState, zero_general, ReconcileResult, status_creating, status_active,
}
use galera_k8s_operator.Entities.Node as Node_v1
use galera_k8s_operator.Entities.Node.{NodeTargetState}
use galera_k8s_operator.Entities.Node.RoundTrip.{to_general-eq-ok, from_general_names}
use galera_k8s_operator.Storage.{Storage, update_general_resource, get_nodes_by_cluster}
use galera_k8s_operator.Storage.Laws.{stored, update_absent}
use galera_k8s_operator.Controller.Outcome.{requeue}
use galera_k8s_operator.Controller.Node.{
  is_ready, as_primary, as_secondary, addresses, process_new_primary, process_new_secondary,
  process_new_node, with_status, record_error, update_encoded, finalize, finish, reconcile,
}
use galera_k8s_operator.Controller.Node.Joining.{write_back_missing}

pub record_error-storage :
    ⦃rfc : TimeText⦄ (res : ReconcileResult) (p : Result (Unit {0}) × Storage)
    → (record_error res p).1 ≡ p.1
record_error-storage res (err e, s) = refl
record_error-storage res (ok x, s) = refl

module _ ⦃rfc : TimeText⦄ (n : NodeTargetState) (s : Storage)
    (gone : stored n.kind n.name s ≡ none) where
  primary_keeps : (process_new_primary n s).1 ≡ s
  unfolding process_new_primary as_primary
  primary_keeps = ground (arith, write_back_missing (as_primary n) s gone)

  secondary_keeps : (process_new_secondary n s).1 ≡ s
  unfolding process_new_secondary as_secondary
  secondary_keeps = elim (Bool-cases (is_ready n)) [
    | inl t ↦ rw (t, process_new_secondary)
    | inr f ↦ elim (Result-cases (get_nodes_by_cluster n.spec.cluster_name s)) [
      | inr (x, e) ↦ rw (f, e, process_new_secondary)
      | inl (nodes, e) ↦ elim (Result-cases (addresses nodes)) [
        | inr (y, g) ↦ rw (f, e, g, process_new_secondary)
        | inl (ips, g) ↦
            rw (f, e, g, process_new_secondary) (write_back_missing (as_secondary n ips) s gone)
      ]
    ]
  ]

  process_keeps : (process_new_node n s).1 ≡ s
  unfolding process_new_node
  process_keeps = ground (arith, primary_keeps, secondary_keeps)

  module _ (unnamed : stored "" "" s ≡ none) where
    update_keeps :
        (status : String) (res : ReconcileResult)
        → (update_encoded (Node_v1.to_general (with_status n status)) res s).1 ≡ s
    unfolding update_encoded
    update_keeps status res = elim (Result-cases (Node_v1.to_general (with_status n status))) [
      | inr (x, e) ↦
          rw (e, update_encoded)
            (record_error-storage _ (update_general_resource zero_general s)
              ∙ update_absent zero_general s unnamed)
      | inl (g, e) ↦
          let (j, f, same) = to_general-eq-ok (with_status n status) g e in
          rw (e, update_encoded)
            (record_error-storage _ (update_general_resource g s)
              ∙ update_absent g s (rw (← same) gone))
    ]

    finalize_keeps : (res : ReconcileResult) → (finalize res n s).1 ≡ s
    unfolding finalize
    finalize_keeps res =
        ground (arith, update_keeps status_active res, update_keeps n.spec.status res)

    finish_keeps : (p : ReconcileResult × Storage) → p.1 ≡ s → (finish n p).1 ≡ s
    unfolding finish
    finish_keeps (res, t) e = ground (arith, e, finalize_keeps res)

module _ ⦃rfc : TimeText⦄ where
  -- A reconciliation of a resource that decodes to a node does not bring the node back: where the
  -- node is not stored any more, and nothing is stored under the empty kind and name, the storage
  -- stays as it is.
  pub reconcile_deleted :
      (r : GeneralTargetState) (n : NodeTargetState) (s : Storage)
      → Node_v1.from_general r ≡ ok n
      → stored Node_v1.kind n.name s ≡ none
      → stored "" "" s ≡ none
      → (reconcile r s).1 ≡ s
  unfolding reconcile
  reconcile_deleted r n s e gone unnamed =
      let (name_same, kind_same) = from_general_names r n e in
      let absent : stored n.kind n.name s ≡ none = rw kind_same gone in
      elim (Bool-cases (n.spec.status == status_creating)) [
        | inl t ↦
            rw (e, reconcile, t)
              (finish_keeps n s absent unnamed (process_new_node n s) (process_keeps n s absent))
        | inr f ↦ rw (e, reconcile, f) (finish_keeps n s absent unnamed (requeue, s) refl)
      ]
