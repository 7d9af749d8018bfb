-- ===== src/Controller/Cluster/Creation.antt =====
-- internal/controller/cluster: the nodes that Reconcile creates, field by field.
use Prim.Native.String
use galera_k8s_operator.Base.{
  ◌+◌, pos, ltb_ℤ, eqb, ◌≡◌, ◌≢◌, refl, ◌⊎◌, inl, inr, true, false, List, [], none, decimal, length,
  All, ok, assign, Bool-cases, arith,
}
use galera_k8s_operator.Entities.Agent.{TimeText, zero_state, zero_galera}
use galera_k8s_operator.Entities.General.{GeneralTargetState}
use galera_k8s_operator.Entities.Node
use galera_k8s_operator.Entities.Node.{NodeTargetState}
use galera_k8s_operator.Entities.Cluster.{ClusterTargetState}
use galera_k8s_operator.Storage.{Storage, resource_key, get_nodes_by_cluster}
use galera_k8s_operator.Controller.Outcome.{requeue}
use galera_k8s_operator.Controller.Cluster.{
  primary_node, secondary_node, no_tally, tally, reconcile,
}
use galera_k8s_operator.Controller.Cluster.Decision.{
  IsActive, primaries, WantsSecondary, tally_inactive_iff,
}
use galera_k8s_operator.Controller.Cluster.Reconcile.{
  IsCreating, fresh_resource, bootstrap_lem, scale_up_lem, reconcile_idle,
}

-- Whether a cluster is due another node can be told.
WantsSecondary-cases :
    (c : ClusterTargetState) (nodes : List NodeTargetState)
    → WantsSecondary c nodes ⊎ ¬ WantsSecondary c nodes
WantsSecondary-cases c nodes = elim (Bool-cases (eqb (primaries nodes) 1)) [
  | inr e ↦ inr (λ w. ground (arith, w.one_primary))
  | inl e ↦ elim (Bool-cases (tally nodes no_tally).at_least_one_isnt_active) [
    | inl f ↦ inr (λ w. cc ((tally_inactive_iff nodes no_tally).1 (refl, w.all_active), f))
    | inr f ↦ elim (Bool-cases (ltb_ℤ (pos (length nodes)) c.spec.replicas)) [
      | inr g ↦ inr (λ w. cc (w.short, g))
      | inl g ↦ inl (record {
        one_primary = ground arith;
        all_active = ((tally_inactive_iff nodes no_tally).0 f).1;
        short = g;
      })
    ]
  ]
]

module _ ⦃rfc : TimeText⦄ (r : GeneralTargetState) (c : ClusterTargetState) (s : Storage)
    (h : IsCreating r c) where
  -- A cluster that is being created and has no nodes gets a first node: the primary of a new
  -- cluster, stored under the cluster's name with "-node-0", with the cluster's image and no
  -- status, whose MariaDB is to start and which has not reported. What is stored reads back as that
  -- node, and no other key is written.
  pub reconcile_bootstrap :
      get_nodes_by_cluster c.name s ≡ ok []
      → let name = String.◌++◌ c.name "-node-0" in
        let node : NodeTargetState = record {
          version = "betav1";
          kind = "node";
          name = name;
          spec = record {
            cluster_name = c.name;
            image = c.spec.image;
            status = "";
            agent_target_state = record {
              gather_hb = true;
              mariadb_started = true;
              galera_new_cluster = true;
              node_role = "primary";
              galera = zero_galera;
              tasks = none;
              configuration = none;
            };
            heartbeat = zero_state;
          };
        } in
        (reconcile r s
          ≡ (requeue, record { gr = assign (resource_key "node" name) (fresh_resource node) s.gr }))
        × (Node.from_general (fresh_resource node) ≡ ok node)
  unfolding primary_node
  reconcile_bootstrap e = bootstrap_lem r c s h e

  -- A cluster that is being created and has nodes gets one more, where exactly one of them is
  -- primary, each is active and they are fewer than the replicas: a secondary that is being
  -- created, named "node-" and one more than the number of nodes, with the cluster's image, whose
  -- MariaDB is not to start yet and which has not reported. What is stored then reads back as that
  -- node, and no other key is written. Otherwise the storage stays as it is, without an error.
  pub reconcile_scale_up :
      (nodes : List NodeTargetState)
      → get_nodes_by_cluster c.name s ≡ ok nodes
      → nodes ≢ []
      → let due =
          (primaries nodes ≡ 1)
          × All IsActive nodes
          × (ltb_ℤ (pos (length nodes)) c.spec.replicas ≡ true) in
        let name = String.◌++◌ "node-" (decimal (length nodes + 1)) in
        let node : NodeTargetState = record {
          version = "betav1";
          kind = "node";
          name = name;
          spec = record {
            cluster_name = c.name;
            image = c.spec.image;
            status = "CREATING";
            agent_target_state = record {
              gather_hb = true;
              mariadb_started = false;
              galera_new_cluster = false;
              node_role = "secondary";
              galera = zero_galera;
              tasks = none;
              configuration = none;
            };
            heartbeat = zero_state;
          };
        } in
        (due
          × (reconcile r s ≡ (
            requeue,
            record { gr = assign (resource_key "node" name) (fresh_resource node) s.gr },
          ))
          × (Node.from_general (fresh_resource node) ≡ ok node))
        ⊎ (¬ due × ((reconcile r s).1 ≡ s) × ((reconcile r s).0.error ≡ none))
  unfolding secondary_node
  reconcile_scale_up nodes e n = elim (WantsSecondary-cases c nodes) [
    | inl w ↦
        let (step, back) = scale_up_lem r c s h nodes e w in
        inl ((w.one_primary, w.all_active, w.short), step, back)
    | inr w ↦
        let (kept, fine) = reconcile_idle r c s h nodes e n w in
        inr (λ (a, b, d). w (record { one_primary = a; all_active = b; short = d }), kept, fine)
  ]
