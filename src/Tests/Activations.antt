-- ===== src/Tests/Activations.antt =====
-- An agent's report that makes its node active, at concrete values.
use galera_k8s_operator.Base.{
  lookup, assign, ℕ, ◌≡◌, ◌≢◌, refl, [], ◌∷◌, some, ok, true, inl, arith,
}
use galera_k8s_operator.Entities.AgentJson.{encode_state}
use galera_k8s_operator.Entities.General.{GeneralTargetState}
use galera_k8s_operator.Entities.Node
use galera_k8s_operator.Storage.Laws.{stored}
use galera_k8s_operator.StateApi.{with_heartbeat}
use galera_k8s_operator.Controller.Outcome.{succeeded}
use galera_k8s_operator.Controller.Node.{reconcile}
use galera_k8s_operator.Controller.Node.Laws.{IsReady}
use galera_k8s_operator.Agent.HbCollector.{Sight, seen, get_wsrep_info}
use galera_k8s_operator.Agent.HbCollector.Send.{tick}
use galera_k8s_operator.Agent.HbCollector.Delivery.{deliver, stamped}
use galera_k8s_operator.ControlPlane.Activation.{IsStoredActive, report_activates}
use galera_k8s_operator.Tests.Data.{new_primary, resource_of, one_node, two_times, json_of}
use galera_k8s_operator.Tests.Ticks.{
  no_number, no_number_fits, agent, new-IsValid, new_read, new_stored, agent_named,
}

abbrev ready_sight : Sight
ready_sight = record {
  current_ip = ok "10.0.0.1";
  flag_exists = true;
  rows = ok (ok ("WSREP_CLUSTER_STATUS", "Primary") ∷ []);
}

ready_stamped :
    encode_state (stamped no_number no_number_fits 5 agent "running" ready_sight)
    ≡ ok (json_of (stamped no_number no_number_fits 5 agent "running" ready_sight))
unfolding encode_state seen get_wsrep_info
ready_stamped = refl

five-is_not_zero : ◌≢◌ {A = ℕ} 5 0
five-is_not_zero = omega arith

stamped-IsReady :
    IsReady
      (with_heartbeat new_primary (stamped no_number no_number_fits 5 agent "running" ready_sight))
unfolding seen get_wsrep_info lookup assign
stamped-IsReady = record {
  creating = refl;
  reported = five-is_not_zero;
  role = inl refl;
  prepared = refl;
  in_primary = refl;
}

report_activates_example :
    let s' =
      (tick
        (deliver 5)
        no_number
        "host/api/v1"
        "running"
        ready_sight
        agent
        (one_node new_primary)).1 in
    (g : GeneralTargetState) × (stored Node.kind "node-1" s' ≡ some g)
    × ((reconcile g s').0 ≡ succeeded)
    × IsStoredActive "node-1"
        (stamped no_number no_number_fits 5 agent "running" ready_sight)
        (reconcile g s').1
report_activates_example =
    report_activates no_number no_number_fits 5 "host/api/v1" "running" ready_sight agent
      (one_node new_primary) (resource_of new_primary) new_primary
      (json_of (stamped no_number no_number_fits 5 agent "running" ready_sight)) new-IsValid
      agent_named new_stored refl new_read ready_stamped stamped-IsReady
