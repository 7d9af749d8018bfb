-- ===== src/ControlPlane/Order.antt =====
-- internal/controller/cluster and the order of the range over the storage, which Go leaves open.
use galera_k8s_operator.Base.{
  String, ◌≡◌, refl, sym, ap, List, [], ◌∷◌, ◌==◌, if◌then◌else◌, ok, Result-cases, inl, inr,
}
use mathlib.Core.List.{Permᴰ}
use mathlib.Core.List.Permᴰ
use galera_k8s_operator.Entities.Agent.{TimeText}
use galera_k8s_operator.Entities.General.{GeneralTargetState, status_creating}
use galera_k8s_operator.Entities.Node.{NodeTargetState}
use galera_k8s_operator.Entities.Cluster as Cluster_v1
use galera_k8s_operator.Entities.Cluster.{ClusterTargetState}
use galera_k8s_operator.Storage.{Storage, get_nodes_by_cluster}
use galera_k8s_operator.Storage.Order.{Reordered, nodes_from-perm}
use galera_k8s_operator.Controller.Cluster.{no_tally}
use galera_k8s_operator.Controller.Cluster.Order.{Permᴰ-tally}
use galera_k8s_operator.ControlPlane.Plans.{
  nothing, plan_tally, plan_nodes, plan_new_cluster, plan_cluster,
}

module _ ⦃rfc : TimeText⦄ where
  plan_nodes-perm :
      (c : ClusterTargetState) (a b : List NodeTargetState)
      → Permᴰ a b
      → plan_nodes c a ≡ plan_nodes c b
  unfolding plan_nodes
  plan_nodes-perm c [] [] p = refl
  plan_nodes-perm c [] (n ∷ ns) p = cc (Permᴰ.length-eq p)
  plan_nodes-perm c (n ∷ ns) [] p = cc (Permᴰ.length-eq p)
  plan_nodes-perm c (n ∷ ns) (m ∷ ms) p = ap (plan_tally c) (Permᴰ-tally p no_tally)

  reordered :
      (name : String) (s s' : Storage) (nodes : List NodeTargetState)
      → Permᴰ s.gr s'.gr
      → get_nodes_by_cluster name s ≡ ok nodes
      → Reordered name s'.gr nodes
  unfolding get_nodes_by_cluster
  reordered name s s' nodes p e = nodes_from-perm name p nodes e

  found_plan :
      (c : ClusterTargetState) (s s' : Storage) (nodes : List NodeTargetState)
      → Permᴰ s.gr s'.gr
      → get_nodes_by_cluster c.name s ≡ ok nodes
      → plan_new_cluster c s ≡ plan_new_cluster c s'
  unfolding plan_new_cluster get_nodes_by_cluster
  found_plan c s s' nodes p e =
      let r = reordered c.name s s' nodes p e in
      rw (e, plan_new_cluster, r.read) (plan_nodes-perm c nodes r.nodes r.same)

  new_cluster_order :
      (c : ClusterTargetState) (s s' : Storage)
      → Permᴰ s.gr s'.gr
      → plan_new_cluster c s ≡ plan_new_cluster c s'
  unfolding plan_new_cluster
  new_cluster_order c s s' p = elim (Result-cases (get_nodes_by_cluster c.name s)) [
    | inl (nodes, e) ↦ found_plan c s s' nodes p e
    | inr (x, e) ↦ elim (Result-cases (get_nodes_by_cluster c.name s')) [
      | inl (nodes, f) ↦ sym (found_plan c s' s nodes (Permᴰ.symm p) f)
      | inr (y, f) ↦ rw (e, f, plan_new_cluster)
    ]
  ]

  -- Two storages that differ only in the order of their entries give a reconciliation of a cluster
  -- the same write, for any resource: the order in which Go ranges over the map plays no part, and
  -- neither does an error that another order would meet first.
  pub plan_cluster_order :
      (r : GeneralTargetState) (s s' : Storage)
      → Permᴰ s.gr s'.gr
      → plan_cluster r s ≡ plan_cluster r s'
  unfolding plan_cluster
  plan_cluster_order r s s' p = elim (Result-cases (Cluster_v1.from_general r)) [
    | inr (x, e) ↦ rw (e, plan_cluster)
    | inl (c, e) ↦
        rw (e, plan_cluster)
          (ap (λ w. if c.spec.status == status_creating then w else nothing)
            (new_cluster_order c s s' p))
  ]
