-- ===== src/Tests/Clusters.antt =====
-- The controller of clusters at concrete values.
use galera_k8s_operator.Storage.Laws.{stored}
use galera_k8s_operator.ControlPlane.Plans.{perform, plan_cluster}
use galera_k8s_operator.ControlPlane.LateCreation.{late_creation}
use galera_k8s_operator.Base.{
  some, ◌≡◌, refl, [], ◌∷◌, none, ok, true, lookup, assign, ◌≢◌, String, arith, eq_iff, decimal,
  ◌⊎◌, All, ltb_ℤ, pos, length,
}
use galera_k8s_operator.Json.{decode_bool, decode_int, decode_slice}
use galera_k8s_operator.Entities.AgentJson.{decode_state, decode_target_state, encode_target_state}
use galera_k8s_operator.Entities.General.{GeneralTargetState, status_creating, status_active}
use galera_k8s_operator.StateApi.{with_heartbeat}
use galera_k8s_operator.Controller.Node as Node_controller
use galera_k8s_operator.Controller.Stuck.{primary_stuck}
use galera_k8s_operator.Entities.Node
use galera_k8s_operator.Entities.Node.{NodeTargetState}
use galera_k8s_operator.Entities.Cluster as Cluster_v1
use galera_k8s_operator.Storage.{Storage, resource_key, get_nodes_by_cluster}
use galera_k8s_operator.Controller.Outcome.{requeue}
use galera_k8s_operator.Controller.Cluster.{primary_node, secondary_node, reconcile}
use galera_k8s_operator.Controller.Cluster.Decision.{WantsSecondary, primaries, IsActive}
use galera_k8s_operator.Controller.Cluster.Reconcile.{IsCreating, fresh_resource, scale_up_once}
use galera_k8s_operator.Controller.Cluster.Creation.{reconcile_bootstrap, reconcile_scale_up}
use galera_k8s_operator.Entities.Agent.{zero_state, zero_target_state}
use galera_k8s_operator.Tests.Data.{
  db, db_resource, empty_storage, one_node, active_primary, new_primary, report_of, resource_of,
  two_times,
}

db-IsCreating : IsCreating db_resource db
unfolding Cluster_v1.from_general
db-IsCreating = record { decoded = refl; creating = refl }

no_nodes : get_nodes_by_cluster "db" empty_storage ≡ ok []
unfolding get_nodes_by_cluster
no_nodes = refl

one_active : get_nodes_by_cluster "db" (one_node active_primary) ≡ ok (active_primary ∷ [])
unfolding get_nodes_by_cluster Node.from_general Node.decode_spec decode_target_state
    encode_target_state decode_bool decode_int decode_slice decode_state
one_active = refl

one_new : get_nodes_by_cluster "db" (one_node new_primary) ≡ ok (new_primary ∷ [])
unfolding get_nodes_by_cluster Node.from_general Node.decode_spec decode_target_state
    encode_target_state decode_bool decode_int decode_slice decode_state
one_new = refl

active_wants : WantsSecondary db (active_primary ∷ [])
active_wants = record { one_primary = refl; all_active = (refl, tt); short = refl }

new-ne-active : ◌≢◌ {A = String} status_creating status_active
new-ne-active = ground (arith, eq_iff status_creating status_active)

new_does_not : ¬ WantsSecondary db (new_primary ∷ [])
new_does_not w = new-ne-active w.all_active.0

-- The nodes of the cluster "db", as they are created.
abbrev first_node : NodeTargetState
first_node = record {
  version = "betav1";
  kind = "node";
  name = "db-node-0";
  spec = record {
    cluster_name = "db";
    image = "mariadb";
    status = "";
    agent_target_state = record zero_target_state {
      gather_hb = true;
      mariadb_started = true;
      galera_new_cluster = true;
      node_role = "primary";
    };
    heartbeat = zero_state;
  };
}

abbrev second_node : NodeTargetState
second_node = record {
  version = "betav1";
  kind = "node";
  name = "node-2";
  spec = record {
    cluster_name = "db";
    image = "mariadb";
    status = "CREATING";
    agent_target_state = record zero_target_state { gather_hb = true; node_role = "secondary" };
    heartbeat = zero_state;
  };
}

reconcile_bootstrap_example :
    (reconcile db_resource empty_storage ≡ (
      requeue,
      record { gr = assign (resource_key "node" "db-node-0") (fresh_resource first_node) [] },
    ))
    × (Node.from_general (fresh_resource first_node) ≡ ok first_node)
reconcile_bootstrap_example =
    reconcile_bootstrap db_resource db empty_storage db-IsCreating no_nodes

reconcile_scale_up_example :
    let due =
      (primaries (active_primary ∷ []) ≡ 1)
      × All IsActive (active_primary ∷ [])
      × (ltb_ℤ (pos (length (active_primary ∷ []))) (pos 3) ≡ true) in
    (due
      × (reconcile db_resource (one_node active_primary) ≡ (
        requeue,
        record {
          gr =
              assign
                (resource_key "node" "node-2")
                (fresh_resource second_node)
                (one_node active_primary).gr;
        },
      ))
      × (Node.from_general (fresh_resource second_node) ≡ ok second_node))
    ⊎ (¬ due
        × ((reconcile db_resource (one_node active_primary)).1 ≡ one_node active_primary)
        × ((reconcile db_resource (one_node active_primary)).0.error ≡ none))
unfolding decimal
reconcile_scale_up_example =
    reconcile_scale_up db_resource db (one_node active_primary) db-IsCreating (active_primary ∷ [])
      one_active (λ e. cc e)

free_name :
    lookup (resource_key Node.kind (secondary_node db 1).name) (one_node active_primary).gr ≡ none
unfolding lookup resource_key secondary_node decimal
free_name = refl

scale_up_once_example :
    (reconcile db_resource (reconcile db_resource (one_node active_primary)).1).1
    ≡ (reconcile db_resource (one_node active_primary)).1
scale_up_once_example =
    scale_up_once db_resource db (one_node active_primary) (active_primary ∷ []) db-IsCreating
      one_active active_wants free_name

free_first : lookup (resource_key Node.kind (primary_node db).name) empty_storage.gr ≡ none
unfolding lookup
free_first = refl

-- The primary as it was created, after its agent has reported that it is in the primary component.
abbrev reported_primary : NodeTargetState
reported_primary =
    with_heartbeat (primary_node db) (report_of "db-node-0" "10.0.0.1" true "Primary")

reported_decoded : Node.from_general (resource_of reported_primary) ≡ ok reported_primary
unfolding Node.from_general Node.decode_spec decode_target_state encode_target_state decode_bool
    decode_int decode_slice decode_state primary_node
reported_decoded = refl

reported_stored : get_nodes_by_cluster "db" (one_node reported_primary) ≡ ok (reported_primary ∷ [])
unfolding get_nodes_by_cluster Node.from_general Node.decode_spec decode_target_state
    encode_target_state decode_bool decode_int decode_slice decode_state primary_node
reported_stored = refl

primary_stuck_example :
    ((reconcile db_resource (one_node reported_primary)).1 ≡ one_node reported_primary)
    × (Node_controller.reconcile (resource_of reported_primary) (one_node reported_primary)
        ≡ (requeue, one_node reported_primary))
primary_stuck_example =
    primary_stuck db_resource (resource_of reported_primary) db (one_node reported_primary)
      (report_of "db-node-0" "10.0.0.1" true "Primary") db-IsCreating reported_decoded
      reported_stored

-- What another goroutine stored in between: the secondary, active.
abbrev later_storage : Storage
later_storage = one_node (record (secondary_node db 1) {
  spec = record (secondary_node db 1).spec { status = status_active };
})

late_creation_example :
    (g : GeneralTargetState) × (stored Node.kind
        (secondary_node db 1).name
        (perform (plan_cluster db_resource (one_node active_primary)) later_storage)
      ≡ some g)
    × (Node.from_general g ≡ ok (secondary_node db 1))
late_creation_example =
    late_creation db_resource db (one_node active_primary) later_storage (active_primary ∷ [])
      db-IsCreating one_active active_wants
