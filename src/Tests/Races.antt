-- ===== src/Tests/Races.antt =====
-- Orders of goroutines at concrete values: a report around an activation, and an iteration.
use galera_k8s_operator.Base.{
  ℕ, ◌≡◌, ◌≢◌, ◌⊎◌, ◌≤◌, ◌*◌, refl, [], ◌∷◌, List, none, some, ok, String, arith, eq_iff, inl, true,
  lookup, length,
}
use galera_k8s_operator.Json.{decode_bool, decode_int, decode_slice}
use galera_k8s_operator.Entities.Agent.{State}
use galera_k8s_operator.Entities.AgentJson.{
  encode_state, decode_state, decode_target_state, encode_target_state,
}
use galera_k8s_operator.Entities.Node
use galera_k8s_operator.Storage.{resource_key}
use galera_k8s_operator.Storage.Laws.{stored}
use galera_k8s_operator.Storage.Laws.Invariant.{IsValid}
use galera_k8s_operator.Controller.Node.Laws.{IsReady, active_resource}
use galera_k8s_operator.ControlPlane.Plans.{perform, plan_node, plan_report}
use galera_k8s_operator.ControlPlane.Stale.{reported, activation_lost}
use galera_k8s_operator.ControllerManager.{
  Iteration, begin_iteration, Step, admit, cancel, start, Run, begun, later,
}
use galera_k8s_operator.ControllerManager.Progress.{IsOver, iteration_ends}
use galera_k8s_operator.Tests.Data.{
  ready_primary, resource_of, report_of, json_of, one_node, two_times,
}

ready-IsValid : IsValid (one_node ready_primary)
unfolding resource_key lookup
ready-IsValid = record {
  distinct = (refl, tt);
  own = (
    record { keyed = refl; sound = record { spec_IsJson = tt; meta_IsJson = tt }; copied = refl },
    tt,
  );
}

ready_decoded : Node.from_general (resource_of ready_primary) ≡ ok ready_primary
unfolding Node.from_general Node.decode_spec decode_target_state encode_target_state decode_bool
    decode_int decode_slice decode_state
ready_decoded = refl

five-ne-zero : ◌≢◌ {A = ℕ} 5 0
five-ne-zero = omega arith

ready_primary-IsReady : IsReady ready_primary
ready_primary-IsReady = record {
  creating = refl;
  reported = five-ne-zero;
  role = inl refl;
  prepared = refl;
  in_primary = refl;
}

abbrev late_report : State
late_report = report_of "node-1" "10.0.0.2" true "Primary"

late_encoded : encode_state late_report ≡ ok (json_of late_report)
unfolding encode_state
late_encoded = refl

ready_encoded :
    encode_state ready_primary.spec.heartbeat ≡ ok (json_of ready_primary.spec.heartbeat)
unfolding encode_state
ready_encoded = refl

ready_found : stored Node.kind "node-1" (one_node ready_primary) ≡ some (resource_of ready_primary)
unfolding lookup resource_key
ready_found = refl

named : ◌≢◌ {A = String} "node-1" ""
named = ground (arith, eq_iff "node-1" "")

activation_lost_example :
    (stored Node.kind "node-1" (
        perform
          (plan_node (resource_of ready_primary) (one_node ready_primary))
          (one_node ready_primary))
      ≡ some (active_resource ready_primary (json_of ready_primary.spec.heartbeat)))
    × (perform (plan_report late_report (one_node ready_primary)) (
          perform
            (plan_node (resource_of ready_primary) (one_node ready_primary))
            (one_node ready_primary))
        ≡ perform (plan_report late_report (one_node ready_primary)) (one_node ready_primary))
    × (stored Node.kind "node-1"
          (perform (plan_report late_report (one_node ready_primary)) (one_node ready_primary))
        ≡ some (reported ready_primary late_report (json_of late_report)))
activation_lost_example =
    activation_lost late_report (resource_of ready_primary) ready_primary (one_node ready_primary)
      (json_of ready_primary.spec.heartbeat) (json_of late_report) ready-IsValid named ready_found
      refl ready_decoded ready_primary-IsReady ready_encoded late_encoded

-- Two resources: the first runs, the context is cancelled before the second.
abbrev two : List ℕ
two = 7 ∷ 8 ∷ []

abbrev last_iteration : Iteration ℕ
last_iteration = record {
  pending = [];
  admitted = none;
  running = 7 ∷ [];
  finished = [];
  left_out = 8 ∷ [];
}

first_iteration :
    begin_iteration (ok two)
    ≡ ok (record { pending = two; admitted = none; running = []; finished = []; left_out = [] })
unfolding begin_iteration
first_iteration = refl

two-Run : Run two 3 last_iteration
two-Run =
    later
      (later (later (begun _ first_iteration) (admit 7 (8 ∷ []) refl refl))
        (start 7 refl (omega arith)))
      (cancel 8 [] refl refl)

iteration_ends_example :
    (3 ≤ 3 * length two) × (IsOver last_iteration ⊎ ((t : Iteration ℕ) × Step last_iteration t))
iteration_ends_example = iteration_ends two 3 last_iteration two-Run
