-- ===== src/Tests/Nodes.antt =====
-- The controller of nodes at concrete values.
use galera_k8s_operator.Base.{
  ◌≡◌, ◌≢◌, ◌↔◌, refl, [], ◌∷◌, none, some, ok, true, false, assign, lookup, String, arith, eq_iff,
  ℕ, new,
}
use galera_k8s_operator.Json.{decode_bool, decode_int, decode_slice}
use galera_k8s_operator.Entities.AgentJson.{
  encode_state, decode_state, decode_target_state, encode_target_state,
}
use galera_k8s_operator.Entities.Node
use galera_k8s_operator.Entities.Node.{Spec, node_resource, spec_object}
use galera_k8s_operator.Storage.{resource_key, get_nodes_by_cluster}
use galera_k8s_operator.Storage.Laws.{stored}
use galera_k8s_operator.Controller.Outcome.{because, failed}
use galera_k8s_operator.Controller.Node.{reconcile}
use galera_k8s_operator.Entities.Agent.{zero_target_state}
use galera_k8s_operator.Controller.Node.Laws.{IsReady, reconcile_success_iff}
use galera_k8s_operator.Controller.Node.Deleted.{reconcile_deleted}
use galera_k8s_operator.Controller.Node.Joining.{
  IsJoining, reconcile_joining_primary, reconcile_joining_secondary, reconcile_missing_address,
}
use galera_k8s_operator.Tests.Data.{
  ready_primary, new_primary, new_secondary, lost_secondary, resource_of, json_of, one_node,
  two_times, empty_storage,
}

ready_decoded : Node.from_general (resource_of ready_primary) ≡ ok ready_primary
unfolding Node.from_general Node.decode_spec decode_target_state encode_target_state decode_bool
    decode_int decode_slice decode_state
ready_decoded = refl

new_decoded : Node.from_general (resource_of new_primary) ≡ ok new_primary
unfolding Node.from_general Node.decode_spec decode_target_state encode_target_state decode_bool
    decode_int decode_slice decode_state
new_decoded = refl

secondary_decoded : Node.from_general (resource_of new_secondary) ≡ ok new_secondary
unfolding Node.from_general Node.decode_spec decode_target_state encode_target_state decode_bool
    decode_int decode_slice decode_state
secondary_decoded = refl

lost_decoded : Node.from_general (resource_of lost_secondary) ≡ ok lost_secondary
unfolding Node.from_general Node.decode_spec decode_target_state encode_target_state decode_bool
    decode_int decode_slice decode_state
lost_decoded = refl

new_secondary_stored : get_nodes_by_cluster "db" (one_node new_secondary) ≡ ok (new_secondary ∷ [])
unfolding get_nodes_by_cluster Node.from_general Node.decode_spec decode_target_state
    encode_target_state decode_bool decode_int decode_slice decode_state
new_secondary_stored = refl

lost_secondary_stored :
    get_nodes_by_cluster "db" (one_node lost_secondary) ≡ ok (lost_secondary ∷ [])
unfolding get_nodes_by_cluster Node.from_general Node.decode_spec decode_target_state
    encode_target_state decode_bool decode_int decode_slice decode_state
lost_secondary_stored = refl

five-ne-zero : ◌≢◌ {A = ℕ} 5 0
five-ne-zero = omega arith

new_primary-IsJoining : IsJoining (resource_of new_primary) new_primary
new_primary-IsJoining = record {
  decoded = new_decoded;
  creating = refl;
  reported = five-ne-zero;
  unready = refl;
}

new_secondary-IsJoining : IsJoining (resource_of new_secondary) new_secondary
new_secondary-IsJoining = record {
  decoded = secondary_decoded;
  creating = refl;
  reported = five-ne-zero;
  unready = refl;
}

lost_secondary-IsJoining : IsJoining (resource_of lost_secondary) lost_secondary
lost_secondary-IsJoining = record {
  decoded = lost_decoded;
  creating = refl;
  reported = five-ne-zero;
  unready = refl;
}

new_encoded : encode_state new_primary.spec.heartbeat ≡ ok (json_of new_primary.spec.heartbeat)
unfolding encode_state
new_encoded = refl

secondary_encoded :
    encode_state new_secondary.spec.heartbeat ≡ ok (json_of new_secondary.spec.heartbeat)
unfolding encode_state
secondary_encoded = refl

new_found : stored Node.kind "node-1" (one_node new_primary) ≢ none
unfolding lookup resource_key
new_found e = cc e

secondary_found : stored Node.kind "node-1" (one_node new_secondary) ≢ none
unfolding lookup resource_key
secondary_found e = cc e

ip_given : ◌≢◌ {A = String} "10.0.0.1" ""
ip_given = ground (arith, eq_iff "10.0.0.1" "")

reconcile_success_iff_example :
    ((reconcile (resource_of ready_primary) (one_node ready_primary)).0.success ≡ true)
    ↔ IsReady ready_primary
reconcile_success_iff_example =
    reconcile_success_iff (resource_of ready_primary) ready_primary (one_node ready_primary)
      ready_decoded

abbrev told_primary : Spec
told_primary = record new_primary.spec {
  agent_target_state = record zero_target_state {
    gather_hb = true;
    mariadb_started = true;
    galera_new_cluster = true;
    node_role = "primary";
  };
}

abbrev told_secondary : Spec
told_secondary =
    let t = new_secondary.spec.agent_target_state in
    record new_secondary.spec {
      agent_target_state = record t {
        mariadb_started = true;
        galera_new_cluster = false;
        galera = record t.galera { incoming_addresses = some ("10.0.0.1" ∷ []) };
      };
    }

reconcile_joining_primary_example : reconcile (resource_of new_primary) (one_node new_primary) ≡ (
  because "requeued",
  record {
    gr =
        assign
          (resource_key Node.kind "node-1")
          (node_resource
            (record new_primary { spec = told_primary })
            (spec_object told_primary (json_of new_primary.spec.heartbeat)))
          (one_node new_primary).gr;
  },
)
reconcile_joining_primary_example =
    reconcile_joining_primary (resource_of new_primary) new_primary (one_node new_primary)
      new_primary-IsJoining (json_of new_primary.spec.heartbeat) refl new_encoded new_found

reconcile_joining_secondary_example :
    reconcile (resource_of new_secondary) (one_node new_secondary) ≡ (
      because "requeued",
      record {
        gr =
            assign
              (resource_key Node.kind "node-1")
              (node_resource
                (record new_secondary { spec = told_secondary })
                (spec_object told_secondary (json_of new_secondary.spec.heartbeat)))
              (one_node new_secondary).gr;
      },
    )
reconcile_joining_secondary_example =
    reconcile_joining_secondary (resource_of new_secondary) new_secondary (one_node new_secondary)
      new_secondary-IsJoining (new_secondary ∷ []) refl new_secondary_stored
      (json_of new_secondary.spec.heartbeat) (ip_given, tt) secondary_encoded secondary_found

reconcile_missing_address_example :
    reconcile (resource_of lost_secondary) (one_node lost_secondary)
    ≡ (failed (new "node has no IP address"), one_node lost_secondary)
reconcile_missing_address_example =
    reconcile_missing_address (resource_of lost_secondary) lost_secondary (one_node lost_secondary)
      lost_secondary-IsJoining (lost_secondary ∷ []) refl lost_secondary_stored (λ a. a.0 refl)

nothing_found : stored Node.kind "node-1" empty_storage ≡ none
unfolding lookup
nothing_found = refl

nothing_unnamed : stored "" "" empty_storage ≡ none
unfolding lookup
nothing_unnamed = refl

reconcile_deleted_example : (reconcile (resource_of ready_primary) empty_storage).1 ≡ empty_storage
reconcile_deleted_example =
    reconcile_deleted (resource_of ready_primary) ready_primary empty_storage ready_decoded
      nothing_found nothing_unnamed
