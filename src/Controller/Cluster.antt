-- ===== src/Controller/Cluster.antt =====
-- internal/controller/cluster: the controller of clusters. internal/k8s-controller/cluster has the
-- same processNewCluster and Reconcile, word for word.
pub mod Order
pub mod Decision
pub mod Reconcile
pub mod Creation
use Prim.Native.String
use galera_k8s_operator.Base.{
  ℕ, ◌+◌, pos, ltb_ℤ, ltb, eqb, String, Bool, true, false, ◌||◌, List, [], ◌∷◌, none, ◌==◌, not,
  if◌then◌else◌, decimal, Result, ok, err,
}
use galera_k8s_operator.Entities.Agent.{TimeText, zero_state, zero_galera}
use galera_k8s_operator.Entities.General.{
  GeneralTargetState, ReconcileResult, status_creating, status_active,
}
use galera_k8s_operator.Entities.Node
use galera_k8s_operator.Entities.Node.{NodeTargetState}
use galera_k8s_operator.Entities.Cluster as Cluster_v1
use galera_k8s_operator.Entities.Cluster.{ClusterTargetState}
use galera_k8s_operator.Storage.{
  Storage, create_resource, get_nodes_by_cluster, list_general_resources_by_kind,
}
use galera_k8s_operator.Controller.Outcome.{requeue, because, failed, unless_failed}

-- GetResources
unfoldable pub get_resources : Storage → Result (List GeneralTargetState)
get_resources s = list_general_resources_by_kind Cluster_v1.kind s

-- The literal leaves `Status` out, so it is empty.
unfoldable pub primary_node : ClusterTargetState → NodeTargetState
primary_node state = record {
  version = Node.version;
  kind = Node.kind;
  name = String.◌++◌ state.name "-node-0";
  spec = record {
    cluster_name = state.name;
    image = state.spec.image;
    status = "";
    agent_target_state = record {
      gather_hb = true;
      mariadb_started = true;
      galera_new_cluster = true;
      node_role = "primary";
      galera = zero_galera;
      tasks = none;
      configuration = none;
    };
    heartbeat = zero_state;
  };
}

unfoldable pub secondary_node : ClusterTargetState → ℕ → NodeTargetState
secondary_node state active_nodes = record {
  version = Node.version;
  kind = Node.kind;
  name = String.◌++◌ "node-" (decimal (active_nodes + 1));
  spec = record {
    cluster_name = state.name;
    image = state.spec.image;
    status = status_creating;
    agent_target_state = record {
      gather_hb = true;
      mariadb_started = false;
      galera_new_cluster = false;
      node_role = "secondary";
      galera = zero_galera;
      tasks = none;
      configuration = none;
    };
    heartbeat = zero_state;
  };
}

-- The variables of the loop over the nodes.
pub record Tally : Type 0 where
  pub active_nodes : ℕ
  pub primary_nodes : ℕ
  pub at_least_one_isnt_active : Bool

abbrev pub visit : NodeTargetState → Tally → Tally
visit node t = record {
  active_nodes = t.active_nodes + 1;
  primary_nodes =
      if node.spec.agent_target_state.node_role == "primary"
      then t.primary_nodes + 1
      else t.primary_nodes;
  at_least_one_isnt_active =
      if node.spec.status == status_active then t.at_least_one_isnt_active else true;
}

unfoldable pub tally : List NodeTargetState → Tally → Tally
tally [] t = t
tally (node ∷ nodes) t = tally nodes (visit node t)

abbrev pub no_tally : Tally
no_tally = record { active_nodes = 0; primary_nodes = 0; at_least_one_isnt_active = false }

module _ ⦃rfc : TimeText⦄ where
  -- A node is made a resource and created.
  unfoldable pub create_node : NodeTargetState → Storage → ReconcileResult × Storage
  create_node node s = elim (Node.to_general node) [
    | err e ↦ (failed e, s)
    | ok g ↦ unless_failed requeue (create_resource g s)
  ]

  -- What follows the loop.
  unfoldable pub after_tally : ClusterTargetState → Tally → Storage → ReconcileResult × Storage
  after_tally state t s =
      if eqb t.primary_nodes 0 || ltb 1 t.primary_nodes
      then (requeue, s)
      else if t.at_least_one_isnt_active
      then (requeue, s)
      else if ltb_ℤ (pos t.active_nodes) state.spec.replicas
      then create_node (secondary_node state t.active_nodes) s
      else (because "unimplemented", s)

  unfoldable pub process_nodes :
      ClusterTargetState → List NodeTargetState → Storage → ReconcileResult × Storage
  unfolding tally
  process_nodes state [] s = create_node (primary_node state) s
  process_nodes state (node ∷ nodes) s = after_tally state (tally (node ∷ nodes) no_tally) s

  unfoldable pub process_new_cluster : ClusterTargetState → Storage → ReconcileResult × Storage
  process_new_cluster state s = elim (get_nodes_by_cluster state.name s) [
    | err e ↦ (failed e, s)
    | ok nodes ↦ process_nodes state nodes s
  ]

  unfoldable pub finalize :
      ReconcileResult → ClusterTargetState → Storage → ReconcileResult × Storage
  finalize res state s = (res, s)

  -- `if !res.Success { return res }; return c.finalize(ctx, res, cluster)`
  unfoldable pub finish : ClusterTargetState → ReconcileResult × Storage → ReconcileResult × Storage
  unfolding finalize
  finish state (res, s) = if res.success then finalize res state s else (res, s)

  unfoldable pub reconcile : GeneralTargetState → Storage → ReconcileResult × Storage
  unfolding finish
  reconcile resource s = elim (Cluster_v1.from_general resource) [
    | err e ↦ (failed e, s)
    | ok cluster ↦ finish cluster (
        if cluster.spec.status == status_creating
        then process_new_cluster cluster s
        else (requeue, s))
  ]
