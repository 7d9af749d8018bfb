-- ===== src/Controller/Node.antt =====
-- internal/controller/node: the controller of nodes.
pub mod Laws
pub mod Joining
pub mod Deleted
use galera_k8s_operator.Base.{
  String, Bool, true, false, ◌&&◌, List, [], ◌∷◌, Option, none, some, ◌==◌, eqb, if◌then◌else◌, new,
  Error, Result, ok, err,
}
use galera_k8s_operator.Entities.Agent.{TimeText, zero_galera}
use galera_k8s_operator.Entities.General.{
  GeneralTargetState, zero_general, ReconcileResult, status_creating, status_active,
}
use galera_k8s_operator.Entities.Node as Node_v1
use galera_k8s_operator.Entities.Node.{NodeTargetState, AgentTargetState, Spec}
use galera_k8s_operator.Storage.{
  Storage, update_general_resource, get_nodes_by_cluster, list_general_resources_by_kind,
}
use galera_k8s_operator.Controller.Outcome.{requeue, because, failed, succeeded, unless_failed}

-- GetResources
unfoldable pub get_resources : Storage → Result (List GeneralTargetState)
get_resources s = list_general_resources_by_kind Node_v1.kind s

-- The test that ends the creation of a node.
abbrev pub is_ready : NodeTargetState → Bool
is_ready node =
    node.spec.heartbeat.heartbeat.prepared
    && node.spec.heartbeat.wsrep_info.wsrep_cluster_status == "Primary"

-- The whole of AgentTargetState is written anew.
unfoldable pub as_primary : NodeTargetState → NodeTargetState
as_primary state = record state {
  spec = record state.spec {
    agent_target_state = record {
      gather_hb = true;
      mariadb_started = true;
      galera_new_cluster = true;
      node_role = "primary";
      galera = zero_galera;
      tasks = none;
      configuration = none;
    };
  };
}

unfoldable pub as_secondary : NodeTargetState → List String → NodeTargetState
as_secondary state ips =
    let t = state.spec.agent_target_state in
    record state {
      spec = record state.spec {
        agent_target_state = record t {
          galera = record t.galera { incoming_addresses = some ips };
          mariadb_started = true;
          galera_new_cluster = false;
        };
      };
    }

-- The loop that gathers the addresses; the first node without one ends it.
unfoldable pub addresses : List NodeTargetState → Result (List String)
addresses [] = ok []
addresses (node ∷ nodes) =
    let rest = addresses nodes in
    if node.spec.heartbeat.ip_address == ""
    then err (new "node has no IP address")
    else elim rest [ err e ↦ err e | ok ips ↦ ok (node.spec.heartbeat.ip_address ∷ ips) ]

module _ ⦃rfc : TimeText⦄ where
  -- A changed node is written back and the resource is looked at again.
  unfoldable pub write_back : NodeTargetState → Storage → ReconcileResult × Storage
  write_back node s = elim (Node_v1.to_general node) [
    | err e ↦ (failed e, s)
    | ok g ↦ unless_failed (because "requeued") (update_general_resource g s)
  ]

  unfoldable pub process_new_primary : NodeTargetState → Storage → ReconcileResult × Storage
  process_new_primary state s =
      if is_ready state then (succeeded, s) else write_back (as_primary state) s

  unfoldable pub process_new_secondary : NodeTargetState → Storage → ReconcileResult × Storage
  process_new_secondary state s =
      if is_ready state
      then (succeeded, s)
      else elim (get_nodes_by_cluster state.spec.cluster_name s) [
        | err e ↦ (failed e, s)
        | ok nodes ↦ elim (addresses nodes) [
          | err e ↦ (failed e, s)
          | ok ips ↦ write_back (as_secondary state ips) s
        ]
      ]

  unfoldable pub process_new_node : NodeTargetState → Storage → ReconcileResult × Storage
  process_new_node state s =
      if eqb state.spec.heartbeat.timestamp 0
      then (because "heartbeat timestamp is zero", s)
      else if state.spec.agent_target_state.node_role == "primary"
      then process_new_primary state s
      else if state.spec.agent_target_state.node_role == "secondary"
      then process_new_secondary state s
      else (failed (new "invalid NodeRole"), s)

  abbrev pub with_status : NodeTargetState → String → NodeTargetState
  with_status node status = record node { spec = record node.spec { status = status } }

  -- The error of the marshalling is kept only if the update that follows succeeds; the update is
  -- then of the zero resource.
  abbrev record_error : ReconcileResult → Result (Unit {0}) × Storage → ReconcileResult × Storage
  record_error res (err e, s) = (record res { error = some e }, s)
  record_error res (ok x, s) = (res, s)

  unfoldable pub update_encoded :
      Result GeneralTargetState → ReconcileResult → Storage → ReconcileResult × Storage
  update_encoded (err e) res s =
      record_error (record res { error = some e }) (update_general_resource zero_general s)
  update_encoded (ok g) res s = record_error res (update_general_resource g s)

  unfoldable pub finalize : ReconcileResult → NodeTargetState → Storage → ReconcileResult × Storage
  unfolding update_encoded
  finalize res state s =
      let new_status =
        if state.spec.status == status_creating then status_active else state.spec.status in
      if new_status == state.spec.status
      then (res, s)
      else update_encoded (Node_v1.to_general (with_status state new_status)) res s

  -- `if !res.Success { return res }; return c.finalize(ctx, res, &node)`
  unfoldable pub finish : NodeTargetState → ReconcileResult × Storage → ReconcileResult × Storage
  finish node (res, s) = if res.success then finalize res node s else (res, s)

  unfoldable pub reconcile : GeneralTargetState → Storage → ReconcileResult × Storage
  reconcile resource s = elim (Node_v1.from_general resource) [
    | err e ↦ (failed e, s)
    | ok node ↦
        finish node
          (if node.spec.status == status_creating then process_new_node node s else (requeue, s))
  ]
