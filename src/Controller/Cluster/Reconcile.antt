-- ===== src/Controller/Cluster/Reconcile.antt =====
-- What one reconciliation of a cluster does to the storage.
use galera_k8s_operator.Base.{
  lookup, All-last, append_last-ne-nil, eq_iff, String, ◌≡◌, ◌≢◌, refl, ◌∙◌, ap, false, List, [],
  ◌∷◌, ◌++◌, none, arith, length, Result, ok, err, assign, Result-cases, inl, inr,
}
use galera_k8s_operator.Json.{Json, str}
use galera_k8s_operator.Entities.Agent.{TimeText, zero_state}
use galera_k8s_operator.Entities.AgentJson.{encode_state, encode_time, state_object}
use galera_k8s_operator.Entities.General.{
  GeneralTargetState, ReconcileResult, status_creating, status_active,
}
use galera_k8s_operator.Entities.Node
use galera_k8s_operator.Entities.Node.{
  NodeTargetState, node_resource, spec_object, to_general, encode_spec,
}
use galera_k8s_operator.Entities.Node.RoundTrip.{
  to_general_lem, IsInt64Node, omitted_spec, from_general-node_resource,
}
use galera_k8s_operator.Entities.Cluster as Cluster_v1
use galera_k8s_operator.Entities.Cluster.{ClusterTargetState}
use galera_k8s_operator.Storage.{Storage, resource_key, create_resource, get_nodes_by_cluster}
use galera_k8s_operator.Storage.Nodes.{get_nodes-assign}
use galera_k8s_operator.Storage.Laws.{create_resource_lem}
use galera_k8s_operator.Controller.Outcome.{requeue, unless_failed}
use galera_k8s_operator.Controller.Cluster.{
  tally, no_tally, primary_node, secondary_node, create_node, after_tally, process_nodes,
  process_new_cluster, reconcile,
}
use galera_k8s_operator.Controller.Cluster.Decision.{
  IsActive, WantsSecondary, process_nodes_wanting, process_nodes_waiting,
}

unless_failed-success :
    (p : Result (Unit {0}) × Storage) → (unless_failed requeue p).0.success ≡ false
unless_failed-success (err e, s) = refl
unless_failed-success (ok x, s) = refl

module _ ⦃rfc : TimeText⦄ where
  -- The JSON of a report that was never made.
  abbrev pub zero_report : Json
  zero_report = state_object zero_state (str "0001-01-01T00:00:00Z")

  pub encode-zero_state : encode_state zero_state ≡ ok zero_report
  unfolding encode_state
  encode-zero_state = rw (rfc.format_zero, encode_time)

  -- The resource of a node that has not reported.
  abbrev pub fresh_resource : NodeTargetState → GeneralTargetState
  fresh_resource n = node_resource n (spec_object n.spec zero_report)

  create_node_lem :
      (n : NodeTargetState) (s : Storage)
      → n.spec.heartbeat ≡ zero_state
      → create_node n s
        ≡ (requeue, record { gr = assign (resource_key n.kind n.name) (fresh_resource n) s.gr })
  unfolding create_node
  create_node_lem n s h = rw (
    to_general_lem n zero_report (ap encode_state h ∙ encode-zero_state),
    create_node,
    create_resource_lem (fresh_resource n) s (record { spec_IsJson = tt; meta_IsJson = tt }),
  )

  from_general-fresh_resource :
      (n : NodeTargetState)
      → IsInt64Node n.spec
      → n.spec.heartbeat ≡ zero_state
      → Node.from_general (fresh_resource n)
        ≡ ok (record n { version = Node.version; kind = Node.kind; spec = omitted_spec n.spec })
  from_general-fresh_resource n h e =
      from_general-node_resource n zero_report h (ap encode_state e ∙ encode-zero_state)

  create_node-success : (n : NodeTargetState) (s : Storage) → (create_node n s).0.success ≡ false
  unfolding create_node
  create_node-success n s = elim (Result-cases (to_general n)) [
    | inr (x, e) ↦ rw (e, create_node)
    | inl (g, e) ↦ rw (e, create_node) (unless_failed-success (create_resource g s))
  ]

  process_nodes-success :
      (c : ClusterTargetState) (nodes : List NodeTargetState) (s : Storage)
      → (process_nodes c nodes s).0.success ≡ false
  unfolding process_nodes after_tally
  process_nodes-success c [] s = create_node-success (primary_node c) s
  process_nodes-success c (node ∷ nodes) s =
      ground (
        arith,
        create_node-success (secondary_node c (tally (node ∷ nodes) no_tally).active_nodes) s,
      )

  -- A resource of a cluster that is being created.
  pub record IsCreating (r : GeneralTargetState) (c : ClusterTargetState) : Type 0 where
    pub decoded : Cluster_v1.from_general r ≡ ok c
    pub creating : c.spec.status ≡ status_creating

  module _ (r : GeneralTargetState) (c : ClusterTargetState) (nodes : List NodeTargetState)
      (s : Storage) (h : IsCreating r c) (e : get_nodes_by_cluster c.name s ≡ ok nodes) where
    reconcile_lem :
        (x : ReconcileResult × Storage)
        → process_nodes c nodes s ≡ x
        → x.0.success ≡ false
        → reconcile r s ≡ x
    unfolding reconcile process_new_cluster
    reconcile_lem x p q = rw (h.decoded, reconcile, h.creating, e, process_new_cluster, p, q)

  module _ (r : GeneralTargetState) (c : ClusterTargetState) (s : Storage)
      (h : IsCreating r c) where
    -- A cluster that is being created and has no nodes gets its primary.
    pub bootstrap_lem :
        get_nodes_by_cluster c.name s ≡ ok []
        → (reconcile r s ≡ (
          requeue,
          record {
            gr =
                assign
                  (resource_key Node.kind (primary_node c).name)
                  (fresh_resource (primary_node c))
                  s.gr;
          },
        ))
          × (Node.from_general (fresh_resource (primary_node c)) ≡ ok (primary_node c))
    unfolding process_nodes primary_node
    bootstrap_lem e = (
      reconcile_lem r c [] s h e _ (create_node_lem (primary_node c) s refl) refl,
      from_general-fresh_resource (primary_node c)
          (record { cluster_size_IsInt64 = refl; wsrep_size_IsInt64 = refl }) refl,
    )

    -- A cluster that is being created and is due another node gets one secondary.
    pub scale_up_lem :
        (nodes : List NodeTargetState)
        → get_nodes_by_cluster c.name s ≡ ok nodes
        → WantsSecondary c nodes
        → (reconcile r s ≡ (
          requeue,
          record {
            gr =
                assign
                  (resource_key Node.kind (secondary_node c (length nodes)).name)
                  (fresh_resource (secondary_node c (length nodes)))
                  s.gr;
          },
        ))
          × (Node.from_general (fresh_resource (secondary_node c (length nodes)))
              ≡ ok (secondary_node c (length nodes)))
    unfolding secondary_node
    scale_up_lem nodes e w = (
      reconcile_lem r c nodes s h e _
          (process_nodes_wanting c nodes s w
            ∙ create_node_lem (secondary_node c (length nodes)) s refl)
          refl,
      from_general-fresh_resource (secondary_node c (length nodes))
          (record { cluster_size_IsInt64 = refl; wsrep_size_IsInt64 = refl }) refl,
    )

    -- A cluster that is being created, has nodes and is not due another is left alone, and that
    -- is no error.
    pub reconcile_idle :
        (nodes : List NodeTargetState)
        → get_nodes_by_cluster c.name s ≡ ok nodes
        → nodes ≢ []
        → ¬ WantsSecondary c nodes
        → ((reconcile r s).1 ≡ s) × ((reconcile r s).0.error ≡ none)
    reconcile_idle nodes e n w =
        let same = reconcile_lem r c nodes s h e _ refl (process_nodes-success c nodes s) in
        let (kept, fine) = process_nodes_waiting c nodes s n w in
        (ap (λ x. x.1) same ∙ kept, ap (λ x. x.0.error) same ∙ fine)

  -- Until the node that was created last is active, the cluster is left alone.
  pub waits_for_last :
      (r : GeneralTargetState) (c : ClusterTargetState) (s : Storage) (k : String)
      (nodes : List NodeTargetState) (n : NodeTargetState)
      → IsCreating r c
      → lookup k s.gr ≡ none
      → get_nodes_by_cluster c.name s ≡ ok nodes
      → Node.from_general (fresh_resource n) ≡ ok n
      → n.kind ≡ Node.kind
      → n.spec.cluster_name ≡ c.name
      → n.spec.status ≢ status_active
      → (reconcile r (record { gr = assign k (fresh_resource n) s.gr })).1
        ≡ record { gr = assign k (fresh_resource n) s.gr }
  waits_for_last r c s k nodes n h free e d a b f =
      (reconcile_idle r c (record { gr = assign k (fresh_resource n) s.gr }) h (nodes ++ n ∷ [])
        (get_nodes-assign c.name k (fresh_resource n) s nodes n free e a d b)
        (append_last-ne-nil nodes n) (λ w. f (All-last IsActive nodes n w.all_active))).0

  active-ne-creating : ◌≢◌ {A = String} status_creating status_active
  active-ne-creating = ground (arith, eq_iff status_creating status_active)

  pub active-ne-empty : ◌≢◌ {A = String} "" status_active
  active-ne-empty = ground (arith, eq_iff "" status_active)

  -- Secondaries join one at a time: for a cluster that is being created and is due another node,
  -- where the name of that node is free, a second reconciliation right after the first changes
  -- nothing.
  pub scale_up_once :
      (r : GeneralTargetState) (c : ClusterTargetState) (s : Storage) (nodes : List NodeTargetState)
      → IsCreating r c
      → get_nodes_by_cluster c.name s ≡ ok nodes
      → WantsSecondary c nodes
      → lookup (resource_key Node.kind (secondary_node c (length nodes)).name) s.gr ≡ none
      → (reconcile r (reconcile r s).1).1 ≡ (reconcile r s).1
  scale_up_once r c s nodes h e w free =
      let (step, back) = scale_up_lem r c s h nodes e w in
      rw step (
        waits_for_last r c s _ nodes (secondary_node c (length nodes)) h free e back
          (unfold secondary_node in refl) (unfold secondary_node in refl)
          (unfold secondary_node in active-ne-creating))
