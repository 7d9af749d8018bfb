-- ===== src/ControlPlane/Plans/Nodes.antt =====
-- The same for the controller of nodes and for the reports.
use galera_k8s_operator.Base.{
  ℕ, new, eqb, ◌≡◌, refl, ◌∙◌, ap, false, ◌==◌, eq_iff, if◌then◌else◌, Result, ok, err, ◌>>=◌,
  arith, Bool-cases, Result-cases, inl, inr,
}
use galera_k8s_operator.Json.{parse}
use galera_k8s_operator.Entities.Agent.{TimeText, State, zero_state}
use galera_k8s_operator.Entities.AgentJson.{decode_state}
use galera_k8s_operator.Entities.General.{
  GeneralTargetState, zero_general, ReconcileResult, status_creating, status_active,
}
use galera_k8s_operator.Entities.Node as Node_v1
use galera_k8s_operator.Entities.Node.{NodeTargetState}
use galera_k8s_operator.Storage.{
  Storage, get_general_resource, update_general_resource, get_nodes_by_cluster,
}
use galera_k8s_operator.Storage.Interface.{in_memory}
use galera_k8s_operator.StateApi.{
  Request, Response, or_report, with_heartbeat, find_node, store_heartbeat, record_heartbeat,
  handle_heartbeat,
}
use galera_k8s_operator.Controller.Outcome.{
  requeue, failed, succeeded, because, unless_failed-storage,
}
use galera_k8s_operator.Controller.Node.{
  is_ready, as_primary, as_secondary, addresses, write_back, process_new_primary,
  process_new_secondary, process_new_node, with_status, update_encoded, finalize, finish, reconcile,
}
use galera_k8s_operator.Controller.Node.Laws.{write_back-success}
use galera_k8s_operator.Controller.Node.Deleted.{record_error-storage}
use galera_k8s_operator.Controller.Cluster as Cluster_controller
use galera_k8s_operator.ControlPlane.Plans.Laws.{reconcile_cluster_plan}
use galera_k8s_operator.ControlPlane.Plans.{
  plan_cluster, update, perform, or_zero_general, updating, plan_active, plan_secondary,
  plan_new_node, plan_node, plan_report, plan_heartbeat,
}

module _ ⦃rfc : TimeText⦄ where
  update_encoded_plan :
      (g : Result GeneralTargetState) (res : ReconcileResult) (s : Storage)
      → (update_encoded g res s).1 ≡ perform (update (or_zero_general g)) s
  unfolding update_encoded perform
  update_encoded_plan (err e) res s =
      record_error-storage _ (update_general_resource zero_general s)
  update_encoded_plan (ok g) res s = record_error-storage res (update_general_resource g s)

  finalize_plan :
      (res : ReconcileResult) (n : NodeTargetState) (s : Storage)
      → n.spec.status ≡ status_creating
      → (finalize res n s).1 ≡ perform (plan_active n) s
  unfolding finalize plan_active
  finalize_plan res n s h = ground (
    arith,
    eq_iff n.spec.status status_creating,
    eq_iff status_active n.spec.status,
    eq_iff status_active status_creating,
    update_encoded_plan (Node_v1.to_general (with_status n status_active)) res s,
  )

  write_back_plan :
      (n : NodeTargetState) (s : Storage) → (write_back n s).1 ≡ perform (updating n) s
  unfolding write_back updating perform
  write_back_plan n s = elim (Result-cases (Node_v1.to_general n)) [
    | inr (x, e) ↦ rw (e, write_back, updating)
    | inl (g, e) ↦
        rw (e, write_back, updating) (unless_failed-storage _ (update_general_resource g s))
  ]

  finish_failed :
      (n : NodeTargetState) (p : ReconcileResult × Storage)
      → p.0.success ≡ false
      → (finish n p).1 ≡ p.1
  unfolding finish
  finish_failed n (res, s) e = ground arith

  finish-write_back :
      (n m : NodeTargetState) (s : Storage) → (finish n (write_back m s)).1 ≡ perform (updating m) s
  finish-write_back n m s =
      finish_failed n (write_back m s) (write_back-success m s) ∙ write_back_plan m s

  finish_ready :
      (n : NodeTargetState) (s : Storage)
      → n.spec.status ≡ status_creating
      → (finish n (succeeded, s)).1 ≡ perform (plan_active n) s
  unfolding finish
  finish_ready n s h = finalize_plan succeeded n s h

  module _ (n : NodeTargetState) (s : Storage) (h : n.spec.status ≡ status_creating) where
    primary_plan :
        (finish n (process_new_primary n s)).1
        ≡ perform (if is_ready n then plan_active n else updating (as_primary n)) s
    unfolding process_new_primary
    primary_plan = elim (Bool-cases (is_ready n)) [
      | inl t ↦ rw (t, process_new_primary) (finish_ready n s h)
      | inr f ↦ rw (f, process_new_primary) (finish-write_back n (as_primary n) s)
    ]

    secondary_plan :
        (finish n (process_new_secondary n s)).1
        ≡ perform (if is_ready n then plan_active n else plan_secondary n s) s
    unfolding process_new_secondary plan_secondary perform
    secondary_plan = elim (Bool-cases (is_ready n)) [
      | inl t ↦ rw (t, process_new_secondary) (finish_ready n s h)
      | inr f ↦ elim (Result-cases (get_nodes_by_cluster n.spec.cluster_name s)) [
        | inr (x, e) ↦
            rw (f, e, process_new_secondary, plan_secondary) (finish_failed n (failed x, s) refl)
        | inl (nodes, e) ↦ elim (Result-cases (addresses nodes)) [
          | inr (y, g) ↦
              rw (f, e, g, process_new_secondary, plan_secondary)
                (finish_failed n (failed y, s) refl)
          | inl (ips, g) ↦
              rw (f, e, g, process_new_secondary, plan_secondary)
                (finish-write_back n (as_secondary n ips) s)
        ]
      ]
    ]

    new_node_plan : (finish n (process_new_node n s)).1 ≡ perform (plan_new_node n s) s
    unfolding process_new_node plan_new_node perform
    new_node_plan = elim (Bool-cases (eqb n.spec.heartbeat.timestamp 0)) [
      | inl t ↦
          rw (t, process_new_node, plan_new_node)
            (finish_failed n (because "heartbeat timestamp is zero", s) refl)
      | inr f ↦ elim (Bool-cases (n.spec.agent_target_state.node_role == "primary")) [
        | inl p ↦ rw (f, p, process_new_node, plan_new_node) primary_plan
        | inr q ↦ elim (Bool-cases (n.spec.agent_target_state.node_role == "secondary")) [
          | inl p ↦ rw (f, q, p, process_new_node, plan_new_node) secondary_plan
          | inr r ↦
              rw (f, q, r, process_new_node, plan_new_node)
                (finish_failed n (failed (new "invalid NodeRole"), s) refl)
        ]
      ]
    ]

  -- A reconciliation of a node that nothing interrupts reads, and then makes the one write that its
  -- plan names.
  pub reconcile_node_plan :
      (r : GeneralTargetState) (s : Storage) → (reconcile r s).1 ≡ perform (plan_node r s) s
  unfolding reconcile plan_node perform
  reconcile_node_plan r s = elim (Result-cases (Node_v1.from_general r)) [
    | inr (x, e) ↦ rw (e, reconcile, plan_node)
    | inl (n, e) ↦ elim (Bool-cases (n.spec.status == status_creating)) [
      | inl t ↦ rw (e, t, reconcile, plan_node) (new_node_plan n s ((eq_iff _ _).0 t))
      | inr f ↦ rw (e, f, reconcile, plan_node) (finish_failed n (requeue, s) refl)
    ]
  ]

  or_report_value :
      (r : Result GeneralTargetState) (w : Response)
      → (or_report zero_general "Bad request: " r w).0 ≡ or_zero_general r
  or_report_value (ok g) w = refl
  or_report_value (err e) w = refl

  report_plan :
      (hb : State) (s : Storage)
      → (record_heartbeat in_memory hb s).1 ≡ perform (plan_report hb s) s
  unfolding record_heartbeat store_heartbeat plan_report perform
  report_plan hb s =
      let (node, w) = find_node (get_general_resource hb.name Node_v1.kind s) in
      ap (λ g. (update_general_resource g s).1)
        (or_report_value (Node_v1.to_general (with_heartbeat node hb)) w)

  -- A request to handleHeartbeat that nothing interrupts reads, and then makes the one write that
  -- its plan names.
  handle_heartbeat_plan :
      (now : ℕ) (req : Request) (s : Storage)
      → (handle_heartbeat in_memory now req s).1 ≡ perform (plan_heartbeat now req s) s
  unfolding handle_heartbeat plan_heartbeat perform
  handle_heartbeat_plan now req s = elim (Bool-cases (req.method == "POST")) [
    | inr f ↦ rw (f, handle_heartbeat, plan_heartbeat)
    | inl t ↦ elim (Result-cases (parse req.body >>= λ j. decode_state j zero_state)) [
      | inr (x, e) ↦ rw (t, e, handle_heartbeat, plan_heartbeat)
      | inl (hb, e) ↦
          rw (t, e, handle_heartbeat, plan_heartbeat)
            (report_plan (record hb { timestamp = now }) s)
    ]
  ]

  -- Run alone, a reconciliation by either controller, and the handling of a report, leave the
  -- storage that the write planned from what was read leaves; that is the only change they make.
  pub reads_then_writes :
      (r : GeneralTargetState) (now : ℕ) (req : Request) (s : Storage)
      → ((Cluster_controller.reconcile r s).1 ≡ perform (plan_cluster r s) s)
        × ((reconcile r s).1 ≡ perform (plan_node r s) s)
        × ((handle_heartbeat in_memory now req s).1 ≡ perform (plan_heartbeat now req s) s)
  reads_then_writes r now req s =
      (reconcile_cluster_plan r s, reconcile_node_plan r s, handle_heartbeat_plan now req s)
