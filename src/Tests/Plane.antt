-- ===== src/Tests/Plane.antt =====
-- The whole control plane in a concrete order of its goroutines.
use galera_k8s_operator.Base.{true, ◌≡◌, refl, [], ◌∷◌, ok, length, ◌≤◌, List, assign}
use galera_k8s_operator.Json.{raw}
use galera_k8s_operator.Entities.AgentJson.{encode_state}
use galera_k8s_operator.Entities.General.{copy}
use galera_k8s_operator.Entities.Node
use galera_k8s_operator.Entities.Node.{NodeTargetState}
use galera_k8s_operator.Entities.Cluster
use galera_k8s_operator.Storage.{
  new_storage, initial_cluster, initial_node, get_nodes_by_cluster, list_general_resources_by_kind,
  init, create_nodes, create_encoded, create_resource, resource_key,
}
use galera_k8s_operator.StateApi.{Request, handle_heartbeat}
use galera_k8s_operator.Storage.Interface.{in_memory}
use galera_k8s_operator.ControlPlane.Members.{home_resource}
use galera_k8s_operator.ControlPlane.Plans.Nodes.{reads_then_writes}
use galera_k8s_operator.Controller.Cluster as Cluster_controller
use galera_k8s_operator.Controller.Node as Node_controller
use galera_k8s_operator.Controller.Cluster.Decision.{primaries}
use galera_k8s_operator.Controller.Cluster.Reconcile.{fresh_resource}
use galera_k8s_operator.ControlPlane.Plans.{perform, plan_cluster, plan_node, plan_heartbeat}
use galera_k8s_operator.ControlPlane.System.{
  System, Reach, start, later, list_nodes, read_node, read_report, write, write_job,
}
use galera_k8s_operator.ControlPlane.Growth.{Leads, here, on, nodes_grow}
use galera_k8s_operator.ControlPlane.Safety.{Reach-nodes}
use galera_k8s_operator.Tests.Data.{json_of, report_of, two_times}

abbrev pub report_request : Request
report_request = record {
  method = "POST";
  body = raw (json_of (report_of "node-1" "10.0.0.1" true "Primary"));
  query_name = "";
}

pub first_listed : Node_controller.get_resources new_storage ≡ ok (fresh_resource initial_node ∷ [])
unfolding Node_controller.get_resources new_storage init create_nodes create_encoded create_resource
    copy assign resource_key list_general_resources_by_kind Node.to_general Cluster.to_general
    encode_state
first_listed = refl

-- A report arrives between the listing and the look at the node, and is written last.
abbrev pub last_state : System
last_state = record {
  storage =
      perform (plan_heartbeat 5 report_request new_storage)
        (perform (plan_node (fresh_resource initial_node) new_storage) new_storage);
  jobs = [];
}

pub last-Reach : Reach last_state
last-Reach =
    later
      (later
        (later
          (later (later start (list_nodes (fresh_resource initial_node ∷ []) first_listed))
            (read_report 5 report_request))
          (read_node (write_job (plan_heartbeat 5 report_request new_storage) ∷ []) []
            (fresh_resource initial_node) refl))
        (write (write_job (plan_heartbeat 5 report_request new_storage) ∷ []) []
          (plan_node (fresh_resource initial_node) new_storage) refl))
      (write [] [] (plan_heartbeat 5 report_request new_storage) refl)

Reach-nodes_example :
    (nodes : List NodeTargetState) × (get_nodes_by_cluster initial_cluster.name last_state.storage
      ≡ ok nodes)
    × (1 ≤ length nodes)
    × (length nodes ≤ 3)
    × (primaries nodes ≡ 1)
Reach-nodes_example = Reach-nodes last_state last-Reach

reads_then_writes_example :
    ((Cluster_controller.reconcile home_resource new_storage).1
      ≡ perform (plan_cluster home_resource new_storage) new_storage)
    × ((Node_controller.reconcile home_resource new_storage).1
        ≡ perform (plan_node home_resource new_storage) new_storage)
    × ((handle_heartbeat in_memory 5 report_request new_storage).1
        ≡ perform (plan_heartbeat 5 report_request new_storage) new_storage)
reads_then_writes_example = reads_then_writes home_resource 5 report_request new_storage

abbrev first_state : System
first_state = record { storage = new_storage; jobs = [] }

last-Leads : Leads first_state last_state
last-Leads =
    on
      (on
        (on
          (on (on here (list_nodes (fresh_resource initial_node ∷ []) first_listed))
            (read_report 5 report_request))
          (read_node (write_job (plan_heartbeat 5 report_request new_storage) ∷ []) []
            (fresh_resource initial_node) refl))
        (write (write_job (plan_heartbeat 5 report_request new_storage) ∷ []) []
          (plan_node (fresh_resource initial_node) new_storage) refl))
      (write [] [] (plan_heartbeat 5 report_request new_storage) refl)

nodes_grow_example :
    (before after : List NodeTargetState) × (get_nodes_by_cluster initial_cluster.name
        first_state.storage
      ≡ ok before)
    × (get_nodes_by_cluster initial_cluster.name last_state.storage ≡ ok after)
    × (length before ≤ length after)
nodes_grow_example = nodes_grow first_state last_state start last-Leads
