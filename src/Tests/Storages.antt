-- ===== src/Tests/Storages.antt =====
-- The in-memory storage and the conversions of resources at concrete values.
use galera_k8s_operator.Base.{
  ◌≡◌, ◌≢◌, refl, none, some, ok, lookup, String, arith, eq_iff, if◌then◌else◌, ◌>>=◌, ◌==◌, ◌&&◌,
}
use galera_k8s_operator.Entities.AgentJson.{encode_state}
use galera_k8s_operator.Entities.General.{GeneralTargetState}
use galera_k8s_operator.Entities.General.Laws.{IsSound, settled_general}
use galera_k8s_operator.Entities.Node
use galera_k8s_operator.Entities.Node.RoundTrip as Node_round_trip
use galera_k8s_operator.Entities.Node.RoundTrip.{IsInt64Node, omitted_spec}
use galera_k8s_operator.Entities.Cluster
use galera_k8s_operator.Entities.Cluster.RoundTrip as Cluster_round_trip
use galera_k8s_operator.Storage.{
  Storage, resource_key, create_resource, update_general_resource, delete_general_resource,
}
use galera_k8s_operator.Storage.Keys.{
  node_kind-NoSlash, cluster_kind-NoSlash, resource_key-injective,
}
use galera_k8s_operator.Storage.Laws.{stored}
use galera_k8s_operator.Storage.Laws.Invariant.{
  IsValid, names, stored-create, stored-update, stored-delete,
}
use galera_k8s_operator.Tests.Data.{
  db, new_primary, ready_primary, resource_of, json_of, one_node, empty_storage, two_times,
}

abbrev node_1 : GeneralTargetState
node_1 = resource_of ready_primary

abbrev holding : Storage
holding = one_node new_primary

node_1-IsSound : IsSound node_1
node_1-IsSound = record { spec_IsJson = tt; meta_IsJson = tt }

holding-IsValid : IsValid holding
unfolding resource_key lookup
holding-IsValid = record {
  distinct = (refl, tt);
  own = (
    record { keyed = refl; sound = record { spec_IsJson = tt; meta_IsJson = tt }; copied = refl },
    tt,
  );
}

found : stored Node.kind "node-1" holding ≢ none
unfolding lookup resource_key
found e = cc e

name_given : ◌≢◌ {A = String} "node-1" ""
name_given = ground (arith, eq_iff "node-1" "")

kind_given : ◌≢◌ {A = String} Node.kind ""
kind_given = ground (arith, eq_iff Node.kind "")

stored-create_example : stored Node.kind "node-1" (create_resource node_1 empty_storage).1 ≡ (
    if names node_1 Node.kind "node-1"
    then some (settled_general node_1)
    else stored Node.kind "node-1" empty_storage)
stored-create_example =
    stored-create node_1 Node.kind "node-1" empty_storage node_1-IsSound node_kind-NoSlash
      node_kind-NoSlash

stored-update_example : stored Cluster.kind "db" (update_general_resource node_1 holding).1 ≡ (
    if names node_1 Cluster.kind "db"
    then some (settled_general node_1)
    else stored Cluster.kind "db" holding)
stored-update_example =
    stored-update node_1 Cluster.kind "db" holding node_1-IsSound cluster_kind-NoSlash
      node_kind-NoSlash found

stored-delete_example :
    stored Node.kind "node-1" (delete_general_resource "node-1" Node.kind holding).1 ≡ (
      if Node.kind == Node.kind && "node-1" == "node-1"
      then none
      else stored Node.kind "node-1" holding)
stored-delete_example =
    stored-delete Node.kind "node-1" Node.kind "node-1" holding node_kind-NoSlash node_kind-NoSlash

resource_key-injective_example :
    ◌≡◌ {A = String} Node.kind Node.kind × ◌≡◌ {A = String} "node-1" "node-1"
resource_key-injective_example =
    resource_key-injective Node.kind Node.kind "node-1" "node-1" node_kind-NoSlash node_kind-NoSlash
      refl

ready_encoded :
    encode_state ready_primary.spec.heartbeat ≡ ok (json_of ready_primary.spec.heartbeat)
unfolding encode_state
ready_encoded = refl

ready_made : Node.to_general ready_primary ≡ ok node_1
ready_made =
    Node_round_trip.to_general_lem ready_primary (json_of ready_primary.spec.heartbeat)
      ready_encoded

node_round_trip_example :
    Node.from_general node_1
    ≡ ok (record ready_primary {
      version = Node.version;
      kind = Node.kind;
      spec = omitted_spec ready_primary.spec;
    })
node_round_trip_example =
    Node_round_trip.from_general-to_general ready_primary node_1
      (record { cluster_size_IsInt64 = refl; wsrep_size_IsInt64 = refl }) ready_made

cluster_round_trip_example :
    (Cluster.to_general db >>= Cluster.from_general)
    ≡ ok (record db { version = Cluster.version; kind = Cluster.kind; namespace = "" })
cluster_round_trip_example = Cluster_round_trip.cluster_round_trip db refl
