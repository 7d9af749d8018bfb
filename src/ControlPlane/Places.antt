-- ===== src/ControlPlane/Places.antt =====
-- The nodes that internal/controller creates stand in order: "node-3" only where "node-2" does.
use galera_k8s_operator.Base.{
  ℕ, ◌≡◌, ◌≢◌, ◌⊎◌, String, inl, inr, none, ◌==◌, eq_iff, arith, lookup, assign, lookup-assign,
  Bool-cases, Result-cases, Option-cases,
}
use galera_k8s_operator.Entities.Agent.{TimeText}
use galera_k8s_operator.Entities.General.{GeneralTargetState, copy}
use galera_k8s_operator.Entities.Node.{NodeTargetState}
use galera_k8s_operator.Storage.{Storage, resource_key, create_resource, update_general_resource}
use galera_k8s_operator.StateApi.{Request}
use galera_k8s_operator.ControlPlane.Plans.{
  Write, nothing, create, update, perform, plan_node, plan_new_node, plan_secondary, plan_active,
  updating, plan_heartbeat, plan_report,
}
use galera_k8s_operator.ControlPlane.Growth.{assign-keeps}
use galera_k8s_operator.ControlPlane.Census.{node_key}

abbrev pub IsOrdered : Storage → Type 0
IsOrdered s = lookup (node_key "node-3") s.gr ≢ none → lookup (node_key "node-2") s.gr ≢ none

-- Only a creation can give a node its place.
abbrev pub IsPlaced : Storage → Write → Type 0
IsPlaced s nothing = Unit
IsPlaced s (create g) =
    resource_key g.kind g.name ≡ node_key "node-3" → lookup (node_key "node-2") s.gr ≢ none
IsPlaced s (update g) = Unit

abbrev pub CreatesNone : Write → Type 0
CreatesNone nothing = Unit
CreatesNone (create g) = ⊥
CreatesNone (update g) = Unit

pub CreatesNone-IsPlaced : (s : Storage) (w : Write) → CreatesNone w → IsPlaced s w
CreatesNone-IsPlaced s nothing h = tt
CreatesNone-IsPlaced s (create g) h = absurd h
CreatesNone-IsPlaced s (update g) h = tt

-- What is stored is not lost.
abbrev pub Keeps : Storage → Storage → Type 0
Keeps s t = (j : String) → lookup j s.gr ≢ none → lookup j t.gr ≢ none

pub IsPlaced-later : (s t : Storage) (w : Write) → Keeps s t → IsPlaced s w → IsPlaced t w
IsPlaced-later s t nothing k h = tt
IsPlaced-later s t (create g) k h = λ e. k (node_key "node-2") (h e)
IsPlaced-later s t (update g) k h = tt

-- After an assignment, a key is the one that was assigned or was there before.
assigned_cases :
    (k j : String) (v : GeneralTargetState) (s : Storage)
    → lookup j (assign k v s.gr) ≢ none
    → (k ≡ j) ⊎ (lookup j s.gr ≢ none)
assigned_cases k j v s h = elim (Bool-cases (k == j)) [
  | inl t ↦ inl ((eq_iff k j).0 t)
  | inr f ↦ inr (λ e. h (rw (lookup-assign k j v s.gr, f) e))
]

create-IsOrdered :
    (g : GeneralTargetState) (s : Storage)
    → IsPlaced s (create g)
    → IsOrdered s
    → IsOrdered (create_resource g s).1
unfolding create_resource
create-IsOrdered g s p o = elim (Result-cases (copy g)) [
  | inr (x, e) ↦ rw (e, create_resource) o
  | inl (c, e) ↦
      rw (e, create_resource)
        (λ h.
          assign-keeps (resource_key g.kind g.name) (node_key "node-2") c s.gr
            (elim (assigned_cases (resource_key g.kind g.name) (node_key "node-3") c s h) [
              | inl same ↦ p same
              | inr there ↦ o there
            ]))
]

update-IsOrdered :
    (g : GeneralTargetState) (s : Storage) → IsOrdered s → IsOrdered (update_general_resource g s).1
unfolding update_general_resource
update-IsOrdered g s o = elim (Result-cases (copy g)) [
  | inr (x, e) ↦ rw (e, update_general_resource) o
  | inl (c, e) ↦ elim (Option-cases (lookup (resource_key g.kind g.name) s.gr)) [
    | inl f ↦ rw (e, f, update_general_resource) o
    | inr (old, f) ↦
        rw (e, f, update_general_resource)
          (λ h. assign-keeps (resource_key g.kind g.name) (node_key "node-2") c s.gr (
            o (elim (assigned_cases (resource_key g.kind g.name) (node_key "node-3") c s h) [
              | inl same ↦ λ n. cc (n, f, same)
              | inr there ↦ there
            ])))
  ]
]

pub perform-IsOrdered :
    (w : Write) (s : Storage) → IsPlaced s w → IsOrdered s → IsOrdered (perform w s)
unfolding perform
perform-IsOrdered nothing s p o = o
perform-IsOrdered (create g) s p o = create-IsOrdered g s p o
perform-IsOrdered (update g) s p o = update-IsOrdered g s o

module _ ⦃rfc : TimeText⦄ where
  updating-CreatesNone : (n : NodeTargetState) → CreatesNone (updating n)
  unfolding updating
  updating-CreatesNone n = ground arith

  plan_secondary-CreatesNone :
      (n : NodeTargetState) (s : Storage) → CreatesNone (plan_secondary n s)
  unfolding plan_secondary updating
  plan_secondary-CreatesNone n s = ground arith

  pub plan_node-CreatesNone : (r : GeneralTargetState) (s : Storage) → CreatesNone (plan_node r s)
  unfolding plan_node plan_new_node plan_active updating plan_secondary
  plan_node-CreatesNone r s = ground arith

  pub plan_heartbeat-CreatesNone :
      (now : ℕ) (req : Request) (s : Storage) → CreatesNone (plan_heartbeat now req s)
  unfolding plan_heartbeat plan_report
  plan_heartbeat-CreatesNone now req s = ground arith
