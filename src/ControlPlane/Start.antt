-- ===== src/ControlPlane/Start.antt =====
-- The storage that NewStorage of internal/in-memory-storage/storage.go makes: the cluster and its
-- first node.
use galera_k8s_operator.Base.{
  ◌==◌, none, false, ◌≢◌, ◌≡◌, refl, ap, ◌∙◌, [], ◌∷◌, ok, eq_refl, inl, inr, Distinct-assign,
  All-assign, lookup-assign, assign, lookup,
}
use galera_k8s_operator.Entities.Agent.{TimeText}
use galera_k8s_operator.Entities.General.{copy}
use galera_k8s_operator.Entities.Node as Node_v1
use galera_k8s_operator.Entities.Cluster as Cluster_v1
use galera_k8s_operator.Storage.{
  Storage, new_storage, initial_node, create_encoded, create_nodes, create_resource, init,
  resource_key,
}
use galera_k8s_operator.Storage.Laws.{create_resource_lem}
use galera_k8s_operator.Controller.Cluster.Reconcile.{
  fresh_resource, zero_report, encode-zero_state,
}
use galera_k8s_operator.Entities.Node.RoundTrip.{to_general_lem}
use galera_k8s_operator.ControlPlane.Members.{
  home_resource, home_key, IsNode, IsEntry, IsSane, to_general-IsNode, seat_1,
}
use galera_k8s_operator.ControlPlane.Census.{node_key, keys_differ}

abbrev home_storage : Storage
home_storage = record { gr = (resource_key Cluster_v1.kind home_resource.name, home_resource) ∷ [] }

first_not_home : (node_key "node-1" == home_key) ≡ false
unfolding resource_key
first_not_home = refl

module _ ⦃rfc : TimeText⦄ where
  first_encoded :
      (s : Storage)
      → create_encoded (Node_v1.to_general initial_node) s
        ≡ (ok tt, record { gr = assign (node_key "node-1") (fresh_resource initial_node) s.gr })
  unfolding create_encoded
  first_encoded s =
      ap (λ r. create_encoded r s) (to_general_lem initial_node zero_report encode-zero_state)
      ∙ create_resource_lem (fresh_resource initial_node) s
          (record { spec_IsJson = tt; meta_IsJson = tt })

  first_node :
      (s : Storage)
      → (create_nodes (initial_node ∷ []) s).1
        ≡ record { gr = assign (node_key "node-1") (fresh_resource initial_node) s.gr }
  unfolding create_nodes
  first_node s = rw (create_nodes, first_encoded s) (ap (λ p. p.1) (first_encoded s))

  -- Init puts the first node over the cluster alone.
  new_storage_lem :
      new_storage
      ≡ record { gr = assign (node_key "node-1") (fresh_resource initial_node) home_storage.gr }
  unfolding new_storage init create_encoded create_resource Cluster_v1.to_general
      Cluster_v1.encode_spec copy assign
  new_storage_lem = first_node home_storage

  first_IsNode : IsNode (fresh_resource initial_node)
  first_IsNode =
      to_general-IsNode initial_node (fresh_resource initial_node) refl
        (record { cluster_size_IsInt64 = refl; wsrep_size_IsInt64 = refl })
        (record { at_home = refl; seat = seat_1; working = inl refl })
        (to_general_lem initial_node zero_report encode-zero_state)

  pub new_storage-IsSane : IsSane new_storage
  unfolding lookup
  new_storage-IsSane = rw new_storage_lem (record {
    distinct =
        Distinct-assign (node_key "node-1") (fresh_resource initial_node) home_storage.gr
          (refl, tt);
    entries =
        All-assign IsEntry (node_key "node-1") (fresh_resource initial_node) home_storage.gr
          (record { keyed = refl; known = inl refl }, tt)
          (record { keyed = refl; known = inr first_IsNode });
    first_there =
        rw
          (
            lookup-assign (node_key "node-1") (node_key "node-1") (fresh_resource initial_node)
                home_storage.gr,
            eq_refl (node_key "node-1"),
          )
          (λ e. cc e);
  })

  -- There is no third node yet, and the cluster is there.
  pub no_third : lookup (node_key "node-3") new_storage.gr ≡ none
  unfolding lookup
  no_third =
      let (d12, d13, d21, d23, d31, d32) = keys_differ in
      rw new_storage_lem (
        rw
          (
            lookup-assign (node_key "node-1") (node_key "node-3") (fresh_resource initial_node)
                home_storage.gr,
            d13,
          )
          (unfold resource_key in refl))

  pub home_there : lookup home_key new_storage.gr ≢ none
  unfolding lookup
  home_there = rw new_storage_lem (
      rw
        (
          lookup-assign (node_key "node-1") home_key (fresh_resource initial_node) home_storage.gr,
          first_not_home,
          eq_refl home_key,
        )
        (λ e. cc e))
