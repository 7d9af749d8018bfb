-- ===== src/Tests/Ticks.antt =====
-- The ticks of an agent, a state file of Galera, and two orders of nodes, at concrete values.
use galera_k8s_operator.Base.{
  ℤ, String, ◌≡◌, ◌≢◌, refl, [], ◌∷◌, none, some, Result, ok, err, true, arith, eq_iff, lookup,
  json_error, IsInt64,
}
use mathlib.Core.List.Permᴰ
use galera_k8s_operator.Storage.{Storage}
use galera_k8s_operator.ControlPlane.Plans.{plan_cluster}
use galera_k8s_operator.ControlPlane.Order.{plan_cluster_order}
use galera_k8s_operator.Json.{decode_bool, decode_int, decode_slice}
use galera_k8s_operator.Entities.AgentJson.{
  encode_state, decode_state, decode_target_state, encode_target_state,
}
use galera_k8s_operator.Entities.Node
use galera_k8s_operator.Storage.{resource_key}
use galera_k8s_operator.Storage.Laws.{stored}
use galera_k8s_operator.Storage.Laws.Invariant.{IsValid}
use galera_k8s_operator.Agent.HbCollector.{Sight, HbCollector, seen, get_wsrep_info}
use galera_k8s_operator.Agent.HbCollector.Delivery.{stamped}
use galera_k8s_operator.Agent.Service.{parse_gra_state}
use galera_k8s_operator.Agent.Service.Texts.{trim_space, trim_right, is_space, IsTrimmed}
use galera_k8s_operator.Agent.Service.Grastate.{IsValue, entry, gra_state_read}
use galera_k8s_operator.Tests.Data.{
  db_resource, new_primary, active_primary, resource_of, one_node, two_times, json_of,
}

abbrev pub no_number : String → Result ℤ
no_number s = err json_error

pub no_number_fits : (s : String) (i : ℤ) → no_number s ≡ ok i → IsInt64 i
no_number_fits s i e = cc e

abbrev sight : Sight
sight = record { current_ip = ok "10.0.0.1"; flag_exists = true; rows = ok [] }

abbrev pub agent : HbCollector
agent = record { name = "node-1"; version = "v1"; last_state = none }

pub new-IsValid : IsValid (one_node new_primary)
unfolding resource_key lookup
new-IsValid = record {
  distinct = (refl, tt);
  own = (
    record { keyed = refl; sound = record { spec_IsJson = tt; meta_IsJson = tt }; copied = refl },
    tt,
  );
}

pub new_read : Node.from_general (resource_of new_primary) ≡ ok new_primary
unfolding Node.from_general Node.decode_spec decode_target_state encode_target_state decode_bool
    decode_int decode_slice decode_state
new_read = refl

pub new_stored : stored Node.kind "node-1" (one_node new_primary) ≡ some (resource_of new_primary)
unfolding lookup resource_key
new_stored = refl

pub agent_named : ◌≢◌ {A = String} "node-1" ""
agent_named = ground (arith, eq_iff "node-1" "")

stamped_encoded :
    encode_state (stamped no_number no_number_fits 5 agent "running" sight)
    ≡ ok (json_of (stamped no_number no_number_fits 5 agent "running" sight))
unfolding encode_state seen get_wsrep_info
stamped_encoded = refl

abbrev cluster_first : Storage
cluster_first = record {
  gr = ("/Galera/db", db_resource) ∷ ("/node/node-1", resource_of active_primary) ∷ [];
}

abbrev node_first : Storage
node_first = record {
  gr = ("/node/node-1", resource_of active_primary) ∷ ("/Galera/db", db_resource) ∷ [];
}

plan_cluster_order_example :
    plan_cluster db_resource cluster_first ≡ plan_cluster db_resource node_first
plan_cluster_order_example =
    plan_cluster_order db_resource cluster_first node_first (Permᴰ.swap refl refl)

plain_IsValue : IsValue " 2.1"
unfolding IsTrimmed trim_right is_space
plain_IsValue = record {
  value_NoColon = (refl, (refl, (refl, (refl, tt))));
  value_IsTrimmed = refl;
}

one_IsValue : IsValue " 1"
unfolding IsTrimmed trim_right is_space
one_IsValue = record { value_NoColon = (refl, (refl, tt)); value_IsTrimmed = refl }

gra_state_read_example :
    parse_gra_state (
      ok (
        "# GALERA saved state"
            ∷ entry "version" " 2.1"
            ∷ entry "uuid" " 1"
            ∷ entry "seqno" " 2.1"
            ∷ entry "safe_to_bootstrap" " 1"
            ∷ [],
        none,
      ))
    ≡ (record { seqno = trim_space " 2.1"; safe_to_bootstrap = trim_space " 1" }, none)
gra_state_read_example =
    gra_state_read " 2.1" " 1" " 2.1" " 1" plain_IsValue one_IsValue plain_IsValue one_IsValue
