-- ===== src/Tests/Api.antt =====
-- The handlers of the state API at concrete values, over the in-memory storage.
use galera_k8s_operator.Base.{true, ◌≡◌, ◌≢◌, refl, none, some, ok, lookup, String, arith, eq_iff}
use galera_k8s_operator.Json.{decode_bool, decode_int, decode_slice, raw, null}
use galera_k8s_operator.Entities.Agent.{State}
use galera_k8s_operator.Entities.AgentJson.{decode_state, decode_target_state, encode_target_state}
use galera_k8s_operator.Entities.Node
use galera_k8s_operator.Storage.{resource_key}
use galera_k8s_operator.Storage.Laws.{stored}
use galera_k8s_operator.Storage.Laws.Invariant.{IsValid}
use galera_k8s_operator.Storage.Interface.{in_memory}
use galera_k8s_operator.StateApi.{Request, record_heartbeat}
use galera_k8s_operator.StateApi.Heartbeats.{record_heartbeat_unknown}
use galera_k8s_operator.Tests.Data.{
  new_primary, resource_of, report_of, one_node, empty_storage, two_times,
}

pub one_node-IsValid : IsValid (one_node new_primary)
unfolding resource_key lookup
one_node-IsValid = record {
  distinct = (refl, tt);
  own = (
    record { keyed = refl; sound = record { spec_IsJson = tt; meta_IsJson = tt }; copied = refl },
    tt,
  );
}

empty_storage-IsValid : IsValid empty_storage
empty_storage-IsValid = record { distinct = tt; own = tt }

pub new_decoded : Node.from_general (resource_of new_primary) ≡ ok new_primary
unfolding Node.from_general Node.decode_spec decode_target_state encode_target_state decode_bool
    decode_int decode_slice decode_state
new_decoded = refl

abbrev pub report : State
report = report_of "node-1" "10.0.0.2" true "Primary"

pub new_found : stored Node.kind "node-1" (one_node new_primary) ≡ some (resource_of new_primary)
unfolding lookup resource_key
new_found = refl

pub named : ◌≢◌ {A = String} "node-1" ""
named = ground (arith, eq_iff "node-1" "")

nothing_found : stored Node.kind "node-1" empty_storage ≡ none
unfolding lookup
nothing_found = refl

nothing_unnamed : stored "" "" empty_storage ≡ none
unfolding lookup
nothing_unnamed = refl

record_heartbeat_unknown_example :
    ((record_heartbeat in_memory report empty_storage).1 ≡ empty_storage)
    × ((record_heartbeat in_memory report empty_storage).0.status ≡ some 404)
record_heartbeat_unknown_example =
    record_heartbeat_unknown in_memory report empty_storage empty_storage-IsValid nothing_unnamed
      named nothing_found

abbrev request : Request
request = record { method = "GET"; body = raw null; query_name = "node-1" }
