-- ===== src/Storage.antt =====
-- internal/in-memory-storage: resources by key. Each method holds the lock throughout, so a method
-- is one step on the storage; a stored value is a copy of its own.
pub mod Order
pub mod Keys
pub mod Laws
pub mod Nodes
pub mod Interface
use Prim.Native.String
use galera_k8s_operator.Base.{
  pos, String, Bool, true, false, ◌||◌, List, [], ◌∷◌, Option, none, some, ◌==◌, if◌then◌else◌,
  Error, new, Result, ok, err, ◌>>=◌, Table, lookup, assign, remove,
}
use galera_k8s_operator.Entities.Agent.{TimeText, zero_state, zero_galera}
use galera_k8s_operator.Entities.General.{GeneralTargetState, zero_general, copy, status_creating}
use galera_k8s_operator.Entities.Node
use galera_k8s_operator.Entities.Node.{NodeTargetState}
use galera_k8s_operator.Entities.Cluster
use galera_k8s_operator.Entities.Cluster.{ClusterTargetState}

pub record Storage : Type 0 where
  pub gr : Table GeneralTargetState

-- fmt.Sprintf("/%s/%s", kind, name)
unfoldable pub resource_key : String → String → String
resource_key kind name = String.◌++◌ "/" (String.◌++◌ kind (String.◌++◌ "/" name))

unfoldable pub create_resource : GeneralTargetState → Storage → Result (Unit {0}) × Storage
create_resource entity s = elim (copy entity) [
  | err e ↦ (err e, s)
  | ok c ↦ (ok tt, record { gr = assign (resource_key entity.kind entity.name) c s.gr })
]

-- A missing resource is the zero value, and no error.
unfoldable pub get_general_resource : String → String → Storage → Result GeneralTargetState
get_general_resource name kind s =
    if name == "" || kind == ""
    then err (new "invalid parameter")
    else elim (lookup (resource_key kind name) s.gr) [ none ↦ ok zero_general | some g ↦ copy g ]

unfoldable pub update_general_resource : GeneralTargetState → Storage → Result (Unit {0}) × Storage
update_general_resource state s = elim (copy state) [
  | err e ↦ (err e, s)
  | ok c ↦ elim (lookup (resource_key state.kind state.name) s.gr) [
    | none ↦ (err (new "resource not found"), s)
    | some old ↦ (ok tt, record { gr = assign (resource_key state.kind state.name) c s.gr })
  ]
]

unfoldable pub delete_general_resource : String → String → Storage → Result (Unit {0}) × Storage
delete_general_resource name kind s = (ok tt, record { gr = remove (resource_key kind name) s.gr })

unfoldable pub list_from : String → Table GeneralTargetState → Result (List GeneralTargetState)
list_from kind [] = ok []
list_from kind ((k, v) ∷ gr) =
    let rest = list_from kind gr in
    if v.kind == kind then (copy v >>= λ c. rest >>= λ l. ok (c ∷ l)) else rest

unfoldable pub list_general_resources_by_kind : String → Storage → Result (List GeneralTargetState)
unfolding list_from
list_general_resources_by_kind kind s = list_from kind s.gr

module _ ⦃rfc : TimeText⦄ where
  -- One entry of the range in GetNodesByCluster, given what the later entries return.
  unfoldable pub visit_node :
      String → GeneralTargetState → Result (List NodeTargetState) → Result (List NodeTargetState)
  visit_node cluster_name v rest =
      if v.kind == Node.kind
      then (Node.from_general v >>= λ node.
          if node.spec.cluster_name == cluster_name then rest >>= (λ l. ok (node ∷ l)) else rest)
      else rest

  unfoldable pub nodes_from : String → Table GeneralTargetState → Result (List NodeTargetState)
  unfolding visit_node
  nodes_from cluster_name [] = ok []
  nodes_from cluster_name ((k, v) ∷ gr) =
      let rest = nodes_from cluster_name gr in visit_node cluster_name v rest

  unfoldable pub get_nodes_by_cluster : String → Storage → Result (List NodeTargetState)
  unfolding nodes_from
  get_nodes_by_cluster cluster_name s = nodes_from cluster_name s.gr

abbrev pub initial_cluster : ClusterTargetState
initial_cluster = record {
  version = Cluster.version;
  kind = Cluster.kind;
  name = "my-galera-cluster";
  namespace = "default";
  spec = record { replicas = pos 3; status = status_creating; image = "mariadb-op:latest" };
}

abbrev pub initial_node : NodeTargetState
initial_node = record {
  version = "betav1";
  name = "node-1";
  kind = Node.kind;
  spec = record {
    cluster_name = "my-galera-cluster";
    image = "mariadb-op:latest";
    status = status_creating;
    agent_target_state = record {
      gather_hb = true;
      mariadb_started = true;
      galera_new_cluster = true;
      node_role = "primary";
      galera = zero_galera;
      tasks = none;
      configuration = none;
    };
    heartbeat = zero_state;
  };
}

-- `res, err := …; if err != nil { return err }; err = s.CreateResource(res)`
unfoldable pub create_encoded : Result GeneralTargetState → Storage → Result (Unit {0}) × Storage
create_encoded (err e) s = (err e, s)
create_encoded (ok g) s = create_resource g s

module _ ⦃rfc : TimeText⦄ where
  unfoldable pub create_nodes : List NodeTargetState → Storage → Result (Unit {0}) × Storage
  create_nodes [] s = (ok tt, s)
  create_nodes (node ∷ nodes) s =
      let (r, s') = create_encoded (Node.to_general node) s in
      let rest = create_nodes nodes s' in elim r [ err e ↦ (err e, s') | ok x ↦ rest ]

  -- Init
  unfoldable pub init : Storage → Result (Unit {0}) × Storage
  unfolding create_nodes create_encoded create_resource
  init s =
      let (r, s') = create_encoded (Cluster.to_general initial_cluster) s in
      elim r [ err e ↦ (err e, s') | ok x ↦ create_nodes (initial_node ∷ []) s' ]

  -- The error of `Init` is dropped.
  unfoldable pub new_storage : Storage
  unfolding init
  new_storage = (init (record { gr = [] })).1
