-- ===== src/ControlPlane/LateCreation.antt =====
-- A creation that internal/controller/cluster/process_new_cluster.go decides on and that is written
-- later.
use galera_k8s_operator.Base.{
  ◌≡◌, refl, ◌∙◌, ap, true, false, List, [], ◌∷◌, some, ok, arith, length, pos, ltb_ℤ,
}
use galera_k8s_operator.Entities.Agent.{TimeText}
use galera_k8s_operator.Entities.AgentJson.{encode_state}
use galera_k8s_operator.Entities.General.{GeneralTargetState}
use galera_k8s_operator.Entities.Node as Node_v1
use galera_k8s_operator.Entities.Node.{NodeTargetState}
use galera_k8s_operator.Entities.Node.RoundTrip.{to_general_lem}
use galera_k8s_operator.Entities.Cluster.{ClusterTargetState}
use galera_k8s_operator.Storage.{Storage, get_nodes_by_cluster}
use galera_k8s_operator.Storage.Laws.{stored, create_resource_lem}
use galera_k8s_operator.Controller.Cluster.{secondary_node, Tally, tally, no_tally}
use galera_k8s_operator.Controller.Cluster.Decision.{
  WantsSecondary, tally-length, tally-primaries, tally_inactive_iff,
}
use galera_k8s_operator.Controller.Cluster.Reconcile.{
  zero_report, encode-zero_state, fresh_resource, IsCreating, scale_up_lem,
}
use galera_k8s_operator.ControlPlane.Stale.{stored-assign}
use galera_k8s_operator.ControlPlane.Plans.{
  perform, create, creation, plan_tally, plan_nodes, plan_new_cluster, plan_cluster,
}

module _ ⦃rfc : TimeText⦄ where
  plan_tally_wanting :
      (c : ClusterTargetState) (t : Tally)
      → t.primary_nodes ≡ 1
      → t.at_least_one_isnt_active ≡ false
      → ltb_ℤ (pos t.active_nodes) c.spec.replicas ≡ true
      → plan_tally c t ≡ creation (secondary_node c t.active_nodes)
  unfolding plan_tally
  plan_tally_wanting c t p a f = rw (p, a, f)

  plan_nodes_wanting :
      (c : ClusterTargetState) (nodes : List NodeTargetState)
      → WantsSecondary c nodes
      → plan_nodes c nodes ≡ creation (secondary_node c (length nodes))
  unfolding plan_nodes
  plan_nodes_wanting c [] w = absurd (omega (arith, w.one_primary))
  plan_nodes_wanting c (node ∷ nodes) w =
      let all = node ∷ nodes in
      plan_tally_wanting c (tally all no_tally) (tally-primaries all ∙ w.one_primary)
        ((tally_inactive_iff all no_tally).1 (refl, w.all_active)) (rw (tally-length all) w.short)
      ∙ ap (λ n. creation (secondary_node c n)) (tally-length all)

  creation_fresh :
      (n : NodeTargetState)
      → encode_state n.spec.heartbeat ≡ ok zero_report
      → creation n ≡ create (fresh_resource n)
  unfolding creation
  creation_fresh n e = rw (to_general_lem n zero_report e, creation)

  plan_cluster_wanting :
      (r : GeneralTargetState) (c : ClusterTargetState) (s : Storage) (nodes : List NodeTargetState)
      → IsCreating r c
      → get_nodes_by_cluster c.name s ≡ ok nodes
      → WantsSecondary c nodes
      → plan_cluster r s ≡ create (fresh_resource (secondary_node c (length nodes)))
  unfolding plan_cluster plan_new_cluster secondary_node
  plan_cluster_wanting r c s nodes h e w =
      rw (h.decoded, plan_cluster, h.creating, e, plan_new_cluster)
        (plan_nodes_wanting c nodes w
          ∙ creation_fresh (secondary_node c (length nodes)) encode-zero_state)

  -- A goroutine that reads a cluster which is being created and is due another node, and writes
  -- later: whatever was stored in between, that secondary among it, perhaps active, is overwritten
  -- by the node as it is first created, without a report.
  pub late_creation :
      (r : GeneralTargetState) (c : ClusterTargetState) (s t : Storage)
      (nodes : List NodeTargetState)
      → IsCreating r c
      → get_nodes_by_cluster c.name s ≡ ok nodes
      → WantsSecondary c nodes
      → let n = secondary_node c (length nodes) in
        (g : GeneralTargetState) × (stored Node_v1.kind n.name (perform (plan_cluster r s) t)
          ≡ some g)
        × (Node_v1.from_general g ≡ ok n)
  unfolding perform secondary_node
  late_creation r c s t nodes h e w =
      let n = secondary_node c (length nodes) in
      let g = fresh_resource n in
      let made =
        ap (λ p. p.1) (create_resource_lem g t (record { spec_IsJson = tt; meta_IsJson = tt })) in
      (
        g,
        ap (λ p. stored Node_v1.kind n.name (perform p t)) (plan_cluster_wanting r c s nodes h e w)
            ∙ ap (stored Node_v1.kind n.name) made
            ∙ stored-assign Node_v1.kind n.name g t,
        (scale_up_lem r c s h nodes e w).1,
      )
