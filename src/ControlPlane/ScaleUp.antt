-- ===== src/ControlPlane/ScaleUp.antt =====
-- What internal/controller/cluster can still do in every state of cmd/controller-manager/main.go.
use galera_k8s_operator.Base.{
  map-middle, All-lookup, ◌++◌, some, ◌<◌, ◌≤◌, decimal, ◌≡◌, ◌≢◌, refl, sym, ◌∙◌, ap, false, inl,
  inr, List, [], ◌∷◌, ◌++◌, map, none, ◌==◌, eq_iff, arith, length, All, lookup, Bool-cases,
  Option-cases, ok,
}
use galera_k8s_operator.Json.Bounds.{ok-injective}
use galera_k8s_operator.ControlPlane.Creations.{small_cases}
use galera_k8s_operator.Entities.Agent.{TimeText}
use galera_k8s_operator.Entities.General.{GeneralTargetState}
use galera_k8s_operator.Entities.Node as Node_v1
use galera_k8s_operator.Entities.Node.{NodeTargetState}
use galera_k8s_operator.Entities.Cluster as Cluster_v1
use galera_k8s_operator.Storage.{initial_cluster, resource_key, get_nodes_by_cluster}
use galera_k8s_operator.Storage.Keys.{
  resource_key-injective, node_kind-NoSlash, cluster_kind-NoSlash,
}
use galera_k8s_operator.Storage.Nodes.{get_nodes-assign}
use galera_k8s_operator.Storage.Laws.Invariant.{list_lem, listed_there}
use galera_k8s_operator.Controller.Cluster as Cluster_controller
use galera_k8s_operator.Controller.Cluster.{secondary_node}
use galera_k8s_operator.Controller.Cluster.Decision.{primaries, IsActive}
use galera_k8s_operator.Controller.Cluster.Reconcile.{fresh_resource, scale_up_lem}
use galera_k8s_operator.ControlPlane.Plans.{plan_cluster}
use galera_k8s_operator.ControlPlane.Plans.Laws.{reconcile_cluster_plan}
use galera_k8s_operator.ControlPlane.Members.{
  home, home_resource, home_key, home_decoded, IsNode, IsEntry,
}
use galera_k8s_operator.ControlPlane.Census.{node_key, home_nodes}
use galera_k8s_operator.ControlPlane.Start.{home_there}
use galera_k8s_operator.ControlPlane.Reports.{sane_IsValid}
use galera_k8s_operator.ControlPlane.Safety.{Reach-IsSound}
use galera_k8s_operator.ControlPlane.InOrder.{Reach-in_order}
use galera_k8s_operator.ControlPlane.Growth.{Leads, here, on, Step-keeps}
use galera_k8s_operator.ControlPlane.System.{
  cluster_job, System, list_clusters, read_cluster, write, Reach, start, later,
}

module _ ⦃rfc : TimeText⦄ where
  home_stored : (s : System) → Reach s → lookup home_key s.storage.gr ≢ none
  home_stored s start = home_there
  home_stored t (later {s} r x) = Step-keeps s t home_key x (home_stored s r)

  node_elsewhere :
      (v : GeneralTargetState) → IsNode v → (resource_key v.kind v.name == home_key) ≡ false
  node_elsewhere v m = elim (Bool-cases (resource_key v.kind v.name == home_key)) [
    | inr f ↦ f
    | inl t ↦
        let same = (eq_iff (resource_key v.kind v.name) home_key).0 t in
        let (a, b) =
          resource_key-injective v.kind home_resource.kind v.name home_resource.name
            (rw m.kind_same node_kind-NoSlash) cluster_kind-NoSlash same in
        absurd (kinds_differ (sym m.kind_same ∙ a))
  ]
    where
      kinds_differ : Node_v1.kind ≢ Cluster_v1.kind
      kinds_differ e = cc ((eq_iff Node_v1.kind Cluster_v1.kind).1 e)

  home_found : (s : System) → Reach s → lookup home_key s.storage.gr ≡ some home_resource
  home_found s r = elim (Option-cases (lookup home_key s.storage.gr)) [
    | inl e ↦ absurd (home_stored s r e)
    | inr (v, e) ↦
        let entry = All-lookup IsEntry home_key v s.storage.gr (Reach-IsSound s r).sane.entries e in
        elim entry.known [
          | inl f ↦ e ∙ ap some f
          | inr m ↦ cc (
            node_elsewhere v m,
            (eq_iff (resource_key v.kind v.name) home_key).1 (sym entry.keyed),
          )
        ]
  ]

  second_key : (secondary_node home 1).name ≡ "node-2"
  unfolding secondary_node decimal
  second_key = refl

  third_key : (secondary_node home 2).name ≡ "node-3"
  unfolding secondary_node decimal
  third_key = refl

  -- The next place is free.
  next_free :
      (s : System) (nodes : List NodeTargetState)
      → Reach s
      → get_nodes_by_cluster home.name s.storage ≡ ok nodes
      → 1 ≤ length nodes
      → length nodes < 3
      → lookup (node_key (secondary_node home (length nodes)).name) s.storage.gr ≡ none
  next_free s nodes r e a b =
      let (found, read, second, third) = Reach-in_order s r in
      let same : found ≡ nodes = ok-injective (sym read ∙ e) in
      elim (small_cases (length nodes) a (ground arith)) [
        | inl one ↦
            rw (one, second_key)
              (elim (Option-cases (lookup (node_key "node-2") s.storage.gr)) [
                | inl f ↦ f
                | inr (v, f) ↦ absurd (omega (arith, second.0 (λ n. cc (n, f)), ap length same))
              ])
        | inr two ↦
            rw (two, third_key)
              (elim (Option-cases (lookup (node_key "node-3") s.storage.gr)) [
                | inl f ↦ f
                | inr (v, f) ↦ absurd (omega (arith, third.0 (λ n. cc (n, f)), ap length same))
              ])
      ]

  -- The cluster is listed, its goroutine reads and writes, and no other goroutine does anything.
  record Reconciled (s : System) : Type 0 where
    next : System
    leads : Leads s next
    written : next.storage ≡ (Cluster_controller.reconcile home_resource s.storage).1

  reconcile_reached : (s : System) → Reach s → Reconciled s
  unfolding Cluster_controller.get_resources
  reconcile_reached s r =
      let h = (Reach-IsSound s r).sane in
      let (a, b, e) =
        listed_there Cluster_v1.kind home_key home_resource s.storage.gr (home_found s r) refl in
      record {
        next = _;
        leads =
            on
              (on
                (on here (
                  list_clusters (a ++ home_resource ∷ b)
                    (list_lem Cluster_v1.kind s.storage (sane_IsValid s.storage h) ∙ ap ok e)))
                (read_cluster (s.jobs ++ map cluster_job a) (map cluster_job b) home_resource
                  (map-middle cluster_job s.jobs a b home_resource)))
              (write (s.jobs ++ map cluster_job a) (map cluster_job b)
                (plan_cluster home_resource s.storage) refl);
        written = sym (reconcile_cluster_plan home_resource s.storage);
      }

  -- From every state that is reached from NewStorage, whatever its goroutines are at, in which
  -- GetNodesByCluster of the cluster returns fewer than three nodes, all of them active, a state
  -- follows in which it returns one node more: the next secondary.
  pub scale_up_reached :
      (s : System) (nodes : List NodeTargetState)
      → Reach s
      → get_nodes_by_cluster initial_cluster.name s.storage ≡ ok nodes
      → All IsActive nodes
      → length nodes < 3
      → (t : System) × Leads s t
        × (get_nodes_by_cluster initial_cluster.name t.storage
            ≡ ok (nodes ++ secondary_node initial_cluster (length nodes) ∷ []))
  unfolding secondary_node
  scale_up_reached s nodes r e all few =
      let found = home_nodes s.storage (Reach-IsSound s r).sane in
      let same : found.nodes ≡ nodes = ok-injective (sym found.read ∙ e) in
      let some_node : 1 ≤ length nodes = omega (arith, found.some_node, ap length same) in
      let node = secondary_node home (length nodes) in
      let (made, back) =
        scale_up_lem home_resource home s.storage
          (record { decoded = home_decoded; creating = refl }) nodes e
          (record {
            one_primary = sym (ap primaries same) ∙ found.one_primary;
            all_active = all;
            short = ground arith;
          }) in
      let step = reconcile_reached s r in
      (
        step.next,
        step.leads,
        rw (step.written, made)
            (get_nodes-assign home.name (node_key node.name) (fresh_resource node) s.storage nodes
              node (next_free s nodes r e some_node few) e refl back refl),
      )
