-- ===== src/ControlPlane/Planned.antt =====
-- The plans that the controllers and the state API make at a sane storage are fine to perform.
use galera_k8s_operator.Base.{
  eqb, String, ◌≡◌, refl, Bool, true, false, inl, inr, List, ◌==◌, eq_iff, if◌then◌else◌, decimal,
  ok, Bool-cases, Result-cases,
}
use galera_k8s_operator.Entities.Agent.{TimeText}
use galera_k8s_operator.Entities.General.{GeneralTargetState, status_creating, status_active}
use galera_k8s_operator.Entities.Node as Node_v1
use galera_k8s_operator.Entities.Node.{NodeTargetState}
use galera_k8s_operator.Entities.Node.RoundTrip.{IsInt64Node, from_general_names}
use galera_k8s_operator.Entities.Node.Bounds.{from_general-IsInt64Node}
use galera_k8s_operator.Storage.{Storage, get_nodes_by_cluster}
use galera_k8s_operator.Controller.Cluster.{secondary_node}
use galera_k8s_operator.Controller.Node.{is_ready, as_primary, as_secondary, addresses, with_status}
use galera_k8s_operator.ControlPlane.Plans.{
  Write, nothing, update, or_zero_general, creation, plan_cluster, updating, plan_active,
  plan_secondary, plan_new_node, plan_node,
}
use galera_k8s_operator.ControlPlane.Members.{
  home, home_resource, seat_2, seat_3, IsMember, IsNode, IsKnown, IsSane, to_general-IsNode,
}
use galera_k8s_operator.ControlPlane.Creations.{plan_cluster_cases}
use galera_k8s_operator.ControlPlane.Writes.{IsFine}

-- A node that may be written.
pub record IsWritable (n : NodeTargetState) : Type 0 where
  pub kind_same : n.kind ≡ Node_v1.kind
  pub fits : IsInt64Node n.spec
  pub member : IsMember n

second_IsWritable : IsWritable (secondary_node home 1)
unfolding secondary_node decimal
second_IsWritable = record {
  kind_same = refl;
  fits = record { cluster_size_IsInt64 = refl; wsrep_size_IsInt64 = refl };
  member = record { at_home = refl; seat = seat_2; working = inl refl };
}

third_IsWritable : IsWritable (secondary_node home 2)
unfolding secondary_node decimal
third_IsWritable = record {
  kind_same = refl;
  fits = record { cluster_size_IsInt64 = refl; wsrep_size_IsInt64 = refl };
  member = record { at_home = refl; seat = seat_3; working = inl refl };
}

module _ ⦃rfc : TimeText⦄ where
  writable_node :
      (n : NodeTargetState) (g : GeneralTargetState)
      → IsWritable n
      → Node_v1.to_general n ≡ ok g
      → IsKnown g
  writable_node n g w e = inr (to_general-IsNode n g w.kind_same w.fits w.member e)

  creation-IsFine : (n : NodeTargetState) → IsWritable n → IsFine (creation n)
  unfolding creation
  creation-IsFine n w = elim (Result-cases (Node_v1.to_general n)) [
    | inr (x, e) ↦ rw (e, creation) tt
    | inl (g, e) ↦ rw (e, creation) (writable_node n g w e)
  ]

  updating-IsFine : (n : NodeTargetState) → IsWritable n → IsFine (updating n)
  unfolding updating
  updating-IsFine n w = elim (Result-cases (Node_v1.to_general n)) [
    | inr (x, e) ↦ rw (e, updating) tt
    | inl (g, e) ↦ rw (e, updating) (inl (writable_node n g w e))
  ]

  -- An update that is made even if the node cannot be marshalled.
  pub encoded-IsFine :
      (n : NodeTargetState)
      → IsWritable n
      → IsFine (update (or_zero_general (Node_v1.to_general n)))
  encoded-IsFine n w = elim (Result-cases (Node_v1.to_general n)) [
    | inr (x, e) ↦ rw (e) (inr (refl, refl))
    | inl (g, e) ↦ rw (e) (inl (writable_node n g w e))
  ]

  pub plan_cluster-IsFine : (s : Storage) → IsSane s → IsFine (plan_cluster home_resource s)
  plan_cluster-IsFine s h = elim (plan_cluster_cases s h) [
    | inl e ↦ rw e tt
    | inr (inl (k, e)) ↦ rw e (creation-IsFine (secondary_node home 1) second_IsWritable)
    | inr (inr (k, e)) ↦ rw e (creation-IsFine (secondary_node home 2) third_IsWritable)
  ]

  -- The node of a resource may be written, and so may it with another status.
  pub node_IsWritable : (g : GeneralTargetState) (m : IsNode g) → IsWritable m.node
  node_IsWritable g m = record {
    kind_same = (from_general_names g m.node m.decoded).1;
    fits = from_general-IsInt64Node g m.node m.decoded;
    member = m.member;
  }

  active-IsFine : (n : NodeTargetState) → IsWritable n → IsFine (plan_active n)
  unfolding plan_active
  active-IsFine n w = encoded-IsFine (with_status n status_active) (record {
    kind_same = w.kind_same;
    fits = record {
      cluster_size_IsInt64 = w.fits.cluster_size_IsInt64;
      wsrep_size_IsInt64 = w.fits.wsrep_size_IsInt64;
    };
    member = record { at_home = w.member.at_home; seat = w.member.seat; working = inr refl };
  })

  primary-IsFine :
      (n : NodeTargetState)
      → IsWritable n
      → n.spec.agent_target_state.node_role ≡ "primary"
      → IsFine (updating (as_primary n))
  unfolding as_primary
  primary-IsFine n w e = updating-IsFine (as_primary n) (record {
    kind_same = w.kind_same;
    fits = record { cluster_size_IsInt64 = refl; wsrep_size_IsInt64 = w.fits.wsrep_size_IsInt64 };
    member = record {
      at_home = w.member.at_home;
      seat = rw (← e) w.member.seat;
      working = w.member.working;
    };
  })

  joining-IsFine :
      (n : NodeTargetState) (ips : List String)
      → IsWritable n
      → IsFine (updating (as_secondary n ips))
  unfolding as_secondary
  joining-IsFine n ips w = updating-IsFine (as_secondary n ips) (record {
    kind_same = w.kind_same;
    fits = record {
      cluster_size_IsInt64 = w.fits.cluster_size_IsInt64;
      wsrep_size_IsInt64 = w.fits.wsrep_size_IsInt64;
    };
    member = record {
      at_home = w.member.at_home;
      seat = w.member.seat;
      working = w.member.working;
    };
  })

  secondary_plan-IsFine :
      (n : NodeTargetState) (s : Storage) → IsWritable n → IsFine (plan_secondary n s)
  unfolding plan_secondary
  secondary_plan-IsFine n s w = elim (Result-cases (get_nodes_by_cluster n.spec.cluster_name s)) [
    | inr (x, e) ↦ rw (e, plan_secondary) tt
    | inl (nodes, e) ↦ elim (Result-cases (addresses nodes)) [
      | inr (y, f) ↦ rw (e, f, plan_secondary) tt
      | inl (ips, f) ↦ rw (e, f, plan_secondary) (joining-IsFine n ips w)
    ]
  ]

  pub IsFine-if : (b : Bool) (v w : Write) → IsFine v → IsFine w → IsFine (if b then v else w)
  IsFine-if true v w a b = a
  IsFine-if false v w a b = b

  new_node-IsFine : (n : NodeTargetState) (s : Storage) → IsWritable n → IsFine (plan_new_node n s)
  unfolding plan_new_node
  new_node-IsFine n s w = elim (Bool-cases (n.spec.agent_target_state.node_role == "primary")) [
    | inl t ↦
        rw (t, plan_new_node)
          (IsFine-if (eqb n.spec.heartbeat.timestamp 0) nothing _ tt (
            IsFine-if (is_ready n) (plan_active n) (updating (as_primary n)) (active-IsFine n w)
              (primary-IsFine n w ((eq_iff _ _).0 t))))
    | inr f ↦
        rw (f, plan_new_node)
          (IsFine-if (eqb n.spec.heartbeat.timestamp 0) nothing _ tt (
            IsFine-if (n.spec.agent_target_state.node_role == "secondary") _ nothing
              (IsFine-if (is_ready n) (plan_active n) (plan_secondary n s) (active-IsFine n w)
                (secondary_plan-IsFine n s w))
              tt))
  ]

  pub plan_node-IsFine : (r : GeneralTargetState) (s : Storage) → IsNode r → IsFine (plan_node r s)
  unfolding plan_node
  plan_node-IsFine r s m =
      rw (m.decoded, plan_node)
        (IsFine-if (m.node.spec.status == status_creating) _ nothing
          (new_node-IsFine m.node s (node_IsWritable r m)) tt)
