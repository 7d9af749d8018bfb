-- ===== src/ControlPlane/Safety.antt =====
-- What holds of the storage of cmd/controller-manager/main.go in every order of its goroutines.
use galera_k8s_operator.Base.{
  length, ◌≤◌, ◌≡◌, refl, sym, ◌∙◌, String, true, List, [], ◌∷◌, map, ok, ◌==◌, eq_refl, inl, inr,
  All, All-append, All-split, Table,
}
use galera_k8s_operator.Json.Bounds.{ok-injective}
use galera_k8s_operator.Entities.Agent.{TimeText}
use galera_k8s_operator.Entities.General.{GeneralTargetState}
use galera_k8s_operator.Entities.Node as Node_v1
use galera_k8s_operator.Entities.Node.{NodeTargetState}
use galera_k8s_operator.Entities.Cluster as Cluster_v1
use galera_k8s_operator.ControlPlane.Start.{new_storage-IsSane}
use galera_k8s_operator.Controller.Cluster.Decision.{primaries}
use galera_k8s_operator.Storage.{
  get_nodes_by_cluster, Storage, initial_cluster, list_general_resources_by_kind,
}
use galera_k8s_operator.Storage.Laws.Invariant.{of_kind, list_lem}
use galera_k8s_operator.Controller.Cluster as Cluster_controller
use galera_k8s_operator.Controller.Node as Node_controller
use galera_k8s_operator.ControlPlane.Plans.{plan_cluster, plan_node}
use galera_k8s_operator.ControlPlane.Members.{home_resource, IsNode, IsEntry, IsSane}
use galera_k8s_operator.ControlPlane.Census.{home_nodes}
use galera_k8s_operator.ControlPlane.Writes.{IsFine, perform-IsSane}
use galera_k8s_operator.ControlPlane.Planned.{plan_cluster-IsFine, plan_node-IsFine}
use galera_k8s_operator.ControlPlane.Reports.{sane_IsValid, plan_heartbeat-IsFine}
use galera_k8s_operator.ControlPlane.System.{
  Job, cluster_job, node_job, write_job, System, Step, list_clusters, list_nodes, read_cluster,
  read_node, read_report, write, Reach, start, later,
}

module _ ⦃rfc : TimeText⦄ where
  -- What a goroutine was started with, or is about to write.
  abbrev pub IsJob : Job → Type 0
  IsJob (cluster_job r) = r ≡ home_resource
  IsJob (node_job r) = IsNode r
  IsJob (write_job w) = IsFine w

  pub record IsSound (s : System) : Type 0 where
    pub sane : IsSane s.storage
    pub planned : All IsJob s.jobs

  -- The entries of a kind, each started as a job of its controller.
  clusters_listed :
      (gr : Table GeneralTargetState)
      → All IsEntry gr
      → All IsJob (map cluster_job (of_kind Cluster_v1.kind gr))
  clusters_listed [] a = tt
  clusters_listed ((k, v) ∷ gr) a = elim a.0.known [
    | inl e ↦ rw e (refl, clusters_listed gr a.1)
    | inr m ↦ rw m.kind_same (clusters_listed gr a.1)
  ]

  node_test : (g : GeneralTargetState) → IsNode g → (g.kind == Node_v1.kind) ≡ true
  node_test g m = rw m.kind_same (eq_refl Node_v1.kind)

  nodes_listed :
      (gr : Table GeneralTargetState)
      → All IsEntry gr
      → All IsJob (map node_job (of_kind Node_v1.kind gr))
  nodes_listed [] a = tt
  nodes_listed ((k, v) ∷ gr) a = elim a.0.known [
    | inl e ↦ rw e (nodes_listed gr a.1)
    | inr m ↦ rw (node_test v m) (m, nodes_listed gr a.1)
  ]

  listed :
      (kind : String) (s : Storage) (l : List GeneralTargetState)
      → IsSane s
      → list_general_resources_by_kind kind s ≡ ok l
      → l ≡ of_kind kind s.gr
  listed kind s l h e = ok-injective (sym e ∙ list_lem kind s (sane_IsValid s h))

  step-IsSound : (s t : System) → Step s t → IsSound s → IsSound t
  unfolding Cluster_controller.get_resources Node_controller.get_resources
  step-IsSound s t (list_clusters l e) h = record {
    sane = h.sane;
    planned = All-append IsJob s.jobs (map cluster_job l) h.planned (
        rw (listed Cluster_v1.kind s.storage l h.sane e)
          (clusters_listed s.storage.gr h.sane.entries));
  }
  step-IsSound s t (list_nodes l e) h = record {
    sane = h.sane;
    planned =
        All-append IsJob s.jobs (map node_job l) h.planned (
          rw (listed Node_v1.kind s.storage l h.sane e) (nodes_listed s.storage.gr h.sane.entries));
  }
  step-IsSound s t (read_cluster a b r e) h =
      let (before, rest) = All-split IsJob a (cluster_job r ∷ b) (rw (← e) h.planned) in
      record {
        sane = h.sane;
        planned =
            All-append IsJob a (write_job (plan_cluster r s.storage) ∷ b) before
              (rw rest.0 (plan_cluster-IsFine s.storage h.sane), rest.1);
      }
  step-IsSound s t (read_node a b r e) h =
      let (before, rest) = All-split IsJob a (node_job r ∷ b) (rw (← e) h.planned) in
      record {
        sane = h.sane;
        planned =
            All-append IsJob a (write_job (plan_node r s.storage) ∷ b) before
              (plan_node-IsFine r s.storage rest.0, rest.1);
      }
  step-IsSound s t (read_report now req) h = record {
    sane = h.sane;
    planned = (plan_heartbeat-IsFine now req s.storage h.sane, h.planned);
  }
  step-IsSound s t (write a b w e) h =
      let (before, rest) = All-split IsJob a (write_job w ∷ b) (rw (← e) h.planned) in
      record {
        sane = perform-IsSane w s.storage rest.0 h.sane;
        planned = All-append IsJob a b before rest.1;
      }

  pub Reach-IsSound : (s : System) → Reach s → IsSound s
  Reach-IsSound s start = record { sane = new_storage-IsSane; planned = tt }
  Reach-IsSound t (later {s} r x) = step-IsSound s t x (Reach-IsSound s r)

  -- In every state that is reached from NewStorage, in any order of the goroutines,
  -- GetNodesByCluster of the cluster succeeds with at least one node and at most three, the
  -- cluster's replicas, of which exactly one is a primary.
  pub Reach-nodes :
      (s : System)
      → Reach s
      → (nodes : List NodeTargetState) × (get_nodes_by_cluster initial_cluster.name s.storage
          ≡ ok nodes)
        × (1 ≤ length nodes)
        × (length nodes ≤ 3)
        × (primaries nodes ≡ 1)
  Reach-nodes s r =
      let found = home_nodes s.storage (Reach-IsSound s r).sane in
      (found.nodes, found.read, found.some_node, found.few, found.one_primary)
