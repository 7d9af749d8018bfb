-- ===== src/Controller/Stuck.antt =====
-- internal/controller/cluster and internal/controller/node together: the primary that
-- processNewCluster creates has no status.
use galera_k8s_operator.Base.{String, ◌≡◌, ◌≢◌, refl, [], ◌∷◌, none, eq_iff, arith, ok, lookup}
use galera_k8s_operator.Entities.Agent.{TimeText, State}
use galera_k8s_operator.Entities.General.{GeneralTargetState, status_creating}
use galera_k8s_operator.Entities.Node
use galera_k8s_operator.Entities.Cluster.{ClusterTargetState}
use galera_k8s_operator.Storage.{Storage, resource_key, get_nodes_by_cluster}
use galera_k8s_operator.StateApi.{with_heartbeat}
use galera_k8s_operator.Controller.Outcome.{requeue}
use galera_k8s_operator.Controller.Node as Node_controller
use galera_k8s_operator.Controller.Node.Laws.{reconcile_other_status}
use galera_k8s_operator.Controller.Cluster as Cluster_controller
use galera_k8s_operator.Controller.Cluster.{primary_node}
use galera_k8s_operator.Controller.Cluster.Reconcile.{
  IsCreating, bootstrap_lem, reconcile_idle, waits_for_last, active-ne-empty,
}

empty-ne-creating : ◌≢◌ {A = String} "" status_creating
empty-ne-creating = ground (arith, eq_iff "" status_creating)

module _ ⦃rfc : TimeText⦄ where
  -- For a cluster that is being created and has no nodes, where the name of its primary is free,
  -- a second reconciliation right after the first changes nothing.
  pub bootstrap_once :
      (r : GeneralTargetState) (c : ClusterTargetState) (s : Storage)
      → IsCreating r c
      → get_nodes_by_cluster c.name s ≡ ok []
      → lookup (resource_key Node.kind (primary_node c).name) s.gr ≡ none
      → (Cluster_controller.reconcile r (Cluster_controller.reconcile r s).1).1
        ≡ (Cluster_controller.reconcile r s).1
  bootstrap_once r c s h e free =
      let (step, back) = bootstrap_lem r c s h e in
      rw step (
        waits_for_last r c s _ [] (primary_node c) h free e back (unfold primary_node in refl)
          (unfold primary_node in refl) (unfold primary_node in active-ne-empty))

  -- A cluster that is being created, and whose one node is the primary that it was given with any
  -- report at all, is stuck: neither a reconciliation of the cluster nor one of that node changes
  -- what is stored.
  pub primary_stuck :
      (r g : GeneralTargetState) (c : ClusterTargetState) (s : Storage) (hb : State)
      → IsCreating r c
      → Node.from_general g ≡ ok (with_heartbeat (primary_node c) hb)
      → get_nodes_by_cluster c.name s ≡ ok (with_heartbeat (primary_node c) hb ∷ [])
      → ((Cluster_controller.reconcile r s).1 ≡ s) × (Node_controller.reconcile g s ≡ (requeue, s))
  primary_stuck r g c s hb h decoded e =
      let n = with_heartbeat (primary_node c) hb in
      (
        (reconcile_idle r c s h (n ∷ []) e (λ f. cc f)
            (λ w. unfold primary_node in active-ne-empty w.all_active.0)).0,
        reconcile_other_status g n s decoded (unfold primary_node in empty-ne-creating),
      )
