-- ===== src/ControlPlane/Plans.antt =====
-- A reconciliation of internal/controller and a report to internal/state-api/server.go, each split
-- where another goroutine may come between: after the reads of the storage, before the one write.
pub mod Laws
pub mod Nodes
use galera_k8s_operator.Base.{
  ℕ, pos, ltb_ℤ, ltb, eqb, String, true, false, ◌||◌, List, [], ◌∷◌, ◌==◌, if◌then◌else◌, Result,
  ok, err, ◌>>=◌,
}
use galera_k8s_operator.Json.{parse}
use galera_k8s_operator.Entities.Agent.{TimeText, State, zero_state}
use galera_k8s_operator.Entities.AgentJson.{decode_state}
use galera_k8s_operator.Entities.General.{
  GeneralTargetState, zero_general, status_creating, status_active,
}
use galera_k8s_operator.Entities.Node as Node_v1
use galera_k8s_operator.Entities.Node.{NodeTargetState}
use galera_k8s_operator.Entities.Cluster as Cluster_v1
use galera_k8s_operator.Entities.Cluster.{ClusterTargetState}
use galera_k8s_operator.Storage.{
  Storage, create_resource, get_general_resource, update_general_resource, get_nodes_by_cluster,
}
use galera_k8s_operator.StateApi.{Request, with_heartbeat, find_node}
use galera_k8s_operator.Controller.Cluster.{primary_node, secondary_node, Tally, tally, no_tally}
use galera_k8s_operator.Controller.Node.{is_ready, as_primary, as_secondary, addresses, with_status}

-- The write that is left to do.
pub data Write : Type 0 where
  nothing : Write
  create : GeneralTargetState → Write
  update : GeneralTargetState → Write

unfoldable pub perform : Write → Storage → Storage
perform nothing s = s
perform (create g) s = (create_resource g s).1
perform (update g) s = (update_general_resource g s).1

abbrev pub or_zero_general : Result GeneralTargetState → GeneralTargetState
or_zero_general (ok g) = g
or_zero_general (err e) = zero_general

module _ ⦃rfc : TimeText⦄ where
  -- processNewCluster up to CreateResource
  unfoldable pub creation : NodeTargetState → Write
  creation node = elim (Node_v1.to_general node) [ err e ↦ nothing | ok g ↦ create g ]

  unfoldable pub plan_tally : ClusterTargetState → Tally → Write
  plan_tally state t =
      if eqb t.primary_nodes 0 || ltb 1 t.primary_nodes
      then nothing
      else if t.at_least_one_isnt_active
      then nothing
      else if ltb_ℤ (pos t.active_nodes) state.spec.replicas
      then creation (secondary_node state t.active_nodes)
      else nothing

  unfoldable pub plan_nodes : ClusterTargetState → List NodeTargetState → Write
  plan_nodes state [] = creation (primary_node state)
  plan_nodes state (node ∷ nodes) = plan_tally state (tally (node ∷ nodes) no_tally)

  unfoldable pub plan_new_cluster : ClusterTargetState → Storage → Write
  plan_new_cluster state s = elim (get_nodes_by_cluster state.name s) [
    | err e ↦ nothing
    | ok nodes ↦ plan_nodes state nodes
  ]

  unfoldable pub plan_cluster : GeneralTargetState → Storage → Write
  plan_cluster resource s = elim (Cluster_v1.from_general resource) [
    | err e ↦ nothing
    | ok cluster ↦
        if cluster.spec.status == status_creating then plan_new_cluster cluster s else nothing
  ]

  -- processNewNode up to UpdateGeneralResource, and finalize for a node that is ready
  unfoldable pub updating : NodeTargetState → Write
  updating node = elim (Node_v1.to_general node) [ err e ↦ nothing | ok g ↦ update g ]

  unfoldable pub plan_active : NodeTargetState → Write
  plan_active node = update (or_zero_general (Node_v1.to_general (with_status node status_active)))

  unfoldable pub plan_secondary : NodeTargetState → Storage → Write
  plan_secondary state s = elim (get_nodes_by_cluster state.spec.cluster_name s) [
    | err e ↦ nothing
    | ok nodes ↦ elim (addresses nodes) [
      | err e ↦ nothing
      | ok ips ↦ updating (as_secondary state ips)
    ]
  ]

  unfoldable pub plan_new_node : NodeTargetState → Storage → Write
  plan_new_node state s =
      if eqb state.spec.heartbeat.timestamp 0
      then nothing
      else if state.spec.agent_target_state.node_role == "primary"
      then if is_ready state then plan_active state else updating (as_primary state)
      else if state.spec.agent_target_state.node_role == "secondary"
      then if is_ready state then plan_active state else plan_secondary state s
      else nothing

  unfoldable pub plan_node : GeneralTargetState → Storage → Write
  plan_node resource s = elim (Node_v1.from_general resource) [
    | err e ↦ nothing
    | ok node ↦ if node.spec.status == status_creating then plan_new_node node s else nothing
  ]

  -- handleHeartbeat up to UpdateGeneralResource
  unfoldable pub plan_report : State → Storage → Write
  plan_report hb s =
      let (node, w) = find_node (get_general_resource hb.name Node_v1.kind s) in
      update (or_zero_general (Node_v1.to_general (with_heartbeat node hb)))

  unfoldable pub plan_heartbeat : ℕ → Request → Storage → Write
  plan_heartbeat now req s =
      if req.method == "POST"
      then elim (parse req.body >>= λ j. decode_state j zero_state) [
        | err e ↦ nothing
        | ok hb ↦ plan_report (record hb { timestamp = now }) s
      ]
      else nothing
