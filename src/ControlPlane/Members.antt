-- ===== src/ControlPlane/Members.antt =====
-- What the storage of cmd/controller-manager/main.go may hold: the cluster that Init creates, and
-- its nodes.
use galera_k8s_operator.Base.{◌≡◌, ◌≢◌, refl, ◌⊎◌, inl, inr, [], none, String, ok, Distinct, All}
use galera_k8s_operator.Json.{raw, object}
use galera_k8s_operator.Entities.Agent.{TimeText}
use galera_k8s_operator.Entities.General.{status_creating, status_active, GeneralTargetState}
use galera_k8s_operator.Entities.General.Laws.{settled_general, IsSound}
use galera_k8s_operator.Entities.Node as Node_v1
use galera_k8s_operator.Entities.Node.{NodeTargetState, node_resource, spec_object}
use galera_k8s_operator.Entities.Node.RoundTrip.{
  IsInt64Node, omitted_spec, to_general-eq-ok, from_general-node_resource,
}
use galera_k8s_operator.Entities.Cluster as Cluster_v1
use galera_k8s_operator.Entities.Cluster.{ClusterTargetState}
use galera_k8s_operator.Storage.{Storage, resource_key, initial_cluster}
use galera_k8s_operator.Storage.Laws.{stored}

-- The cluster as it is read back, and its resource.
abbrev pub home : ClusterTargetState
home = record initial_cluster { namespace = "" }

abbrev pub home_resource : GeneralTargetState
home_resource = record {
  version = Cluster_v1.version;
  kind = Cluster_v1.kind;
  name = home.name;
  spec = raw (Cluster_v1.encode_spec home.spec);
  meta = raw (object []);
}

-- The key of the cluster
abbrev pub home_key : String
home_key = resource_key home_resource.kind home_resource.name

pub home_decoded : Cluster_v1.from_general home_resource ≡ ok home
unfolding Cluster_v1.from_general Cluster_v1.encode_spec
home_decoded = refl

-- The names that nodes have, with their roles.
pub data IsSeat : String → String → Type 0 where
  seat_1 : IsSeat "node-1" "primary"
  seat_2 : IsSeat "node-2" "secondary"
  seat_3 : IsSeat "node-3" "secondary"

pub record IsMember (n : NodeTargetState) : Type 0 where
  pub at_home : n.spec.cluster_name ≡ home.name
  pub seat : IsSeat n.name n.spec.agent_target_state.node_role
  pub working : (n.spec.status ≡ status_creating) ⊎ (n.spec.status ≡ status_active)

module _ ⦃rfc : TimeText⦄ where
  pub record IsNode (g : GeneralTargetState) : Type 0 where
    pub node : NodeTargetState
    pub kind_same : g.kind ≡ Node_v1.kind
    pub decoded : Node_v1.from_general g ≡ ok node
    pub sound : IsSound g
    pub copied : settled_general g ≡ g
    pub member : IsMember node

  abbrev pub IsKnown : GeneralTargetState → Type 0
  IsKnown g = (g ≡ home_resource) ⊎ IsNode g

  pub record IsEntry (e : String × GeneralTargetState) : Type 0 where
    pub keyed : e.0 ≡ resource_key e.1.kind e.1.name
    pub known : IsKnown e.1

  -- The first node is always there.
  pub record IsSane (s : Storage) : Type 0 where
    pub distinct : Distinct s.gr
    pub entries : All IsEntry s.gr
    pub first_there : stored Node_v1.kind "node-1" s ≢ none

  -- A member that is written is a known resource.
  pub to_general-IsNode :
      (n : NodeTargetState) (g : GeneralTargetState)
      → n.kind ≡ Node_v1.kind
      → IsInt64Node n.spec
      → IsMember n
      → Node_v1.to_general n ≡ ok g
      → IsNode g
  to_general-IsNode n g k h m e =
      let (j, f, same) = to_general-eq-ok n g e in
      rw (← same) (record {
        node = record n {
          version = Node_v1.version;
          kind = Node_v1.kind;
          spec = omitted_spec n.spec;
        };
        kind_same = k;
        decoded = from_general-node_resource n j h f;
        sound = record { spec_IsJson = tt; meta_IsJson = tt };
        copied = refl;
        member = record { at_home = m.at_home; seat = m.seat; working = m.working };
      })

  pub home_resource-IsSound : IsSound home_resource
  home_resource-IsSound = record { spec_IsJson = tt; meta_IsJson = tt }

  pub known-IsSound : (g : GeneralTargetState) → IsKnown g → IsSound g
  known-IsSound g (inl e) = rw e home_resource-IsSound
  known-IsSound g (inr m) = m.sound

  pub known_copied : (g : GeneralTargetState) → IsKnown g → settled_general g ≡ g
  known_copied g (inl e) = rw e refl
  known_copied g (inr m) = m.copied
