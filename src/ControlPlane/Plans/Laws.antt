-- ===== src/ControlPlane/Plans/Laws.antt =====
-- Each call, when nothing comes between, is its plan and then the write.
use galera_k8s_operator.Base.{
  ◌≡◌, ◌∙◌, List, [], ◌∷◌, ◌==◌, arith, Bool-cases, Result-cases, inl, inr,
}
use galera_k8s_operator.Entities.Agent.{TimeText}
use galera_k8s_operator.Entities.General.{GeneralTargetState, ReconcileResult, status_creating}
use galera_k8s_operator.Entities.Node as Node_v1
use galera_k8s_operator.Entities.Node.{NodeTargetState}
use galera_k8s_operator.Entities.Cluster as Cluster_v1
use galera_k8s_operator.Entities.Cluster.{ClusterTargetState}
use galera_k8s_operator.Storage.{Storage, create_resource, get_nodes_by_cluster}
use galera_k8s_operator.Controller.Outcome.{requeue, unless_failed-storage}
use galera_k8s_operator.Controller.Cluster as Cluster_controller
use galera_k8s_operator.Controller.Cluster.{
  primary_node, secondary_node, Tally, tally, no_tally, create_node, after_tally, process_nodes,
}
use galera_k8s_operator.ControlPlane.Plans.{
  perform, creation, plan_tally, plan_nodes, plan_new_cluster, plan_cluster,
}

module _ ⦃rfc : TimeText⦄ where
  create_node_plan :
      (n : NodeTargetState) (s : Storage) → (create_node n s).1 ≡ perform (creation n) s
  unfolding create_node creation perform
  create_node_plan n s = elim (Result-cases (Node_v1.to_general n)) [
    | inr (x, e) ↦ rw (e, create_node, creation)
    | inl (g, e) ↦
        rw (e, create_node, creation) (unless_failed-storage requeue (create_resource g s))
  ]

  after_tally_plan :
      (c : ClusterTargetState) (t : Tally) (s : Storage)
      → (after_tally c t s).1 ≡ perform (plan_tally c t) s
  unfolding after_tally plan_tally perform
  after_tally_plan c t s = ground (arith, create_node_plan (secondary_node c t.active_nodes) s)

  process_nodes_plan :
      (c : ClusterTargetState) (nodes : List NodeTargetState) (s : Storage)
      → (process_nodes c nodes s).1 ≡ perform (plan_nodes c nodes) s
  unfolding process_nodes plan_nodes
  process_nodes_plan c [] s = create_node_plan (primary_node c) s
  process_nodes_plan c (node ∷ nodes) s = after_tally_plan c (tally (node ∷ nodes) no_tally) s

  new_cluster_plan :
      (c : ClusterTargetState) (s : Storage)
      → (Cluster_controller.process_new_cluster c s).1 ≡ perform (plan_new_cluster c s) s
  unfolding Cluster_controller.process_new_cluster plan_new_cluster perform
  new_cluster_plan c s = elim (Result-cases (get_nodes_by_cluster c.name s)) [
    | inr (x, e) ↦ rw (e, Cluster_controller.process_new_cluster, plan_new_cluster)
    | inl (nodes, e) ↦
        rw (e, Cluster_controller.process_new_cluster, plan_new_cluster)
          (process_nodes_plan c nodes s)
  ]

  finish_storage :
      (c : ClusterTargetState) (p : ReconcileResult × Storage)
      → (Cluster_controller.finish c p).1 ≡ p.1
  unfolding Cluster_controller.finish Cluster_controller.finalize
  finish_storage c (res, s) = ground arith

  -- A reconciliation of a cluster that nothing interrupts reads, and then makes the one write that
  -- its plan names.
  pub reconcile_cluster_plan :
      (r : GeneralTargetState) (s : Storage)
      → (Cluster_controller.reconcile r s).1 ≡ perform (plan_cluster r s) s
  unfolding Cluster_controller.reconcile plan_cluster perform
  reconcile_cluster_plan r s = elim (Result-cases (Cluster_v1.from_general r)) [
    | inr (x, e) ↦ rw (e, Cluster_controller.reconcile, plan_cluster)
    | inl (c, e) ↦ elim (Bool-cases (c.spec.status == status_creating)) [
      | inl t ↦
          rw (e, t, Cluster_controller.reconcile, plan_cluster)
            (finish_storage c (Cluster_controller.process_new_cluster c s) ∙ new_cluster_plan c s)
      | inr f ↦
          rw (e, f, Cluster_controller.reconcile, plan_cluster) (finish_storage c (requeue, s))
    ]
  ]
