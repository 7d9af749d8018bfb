-- ===== src/ControlPlane/AllActive.antt =====
-- The nodes that GetNodesByCluster returns, by what is stored.
use galera_k8s_operator.Base.{
  ◌≡◌, refl, sym, ◌∙◌, String, inl, inr, List, [], ◌∷◌, none, some, ◌==◌, eq_iff, eq_refl, Table,
  lookup, Distinct, All, Bool-cases, Result-cases, ok,
}
use mathlib.Core.Path.{subst}
use galera_k8s_operator.Json.Bounds.{ok-injective}
use galera_k8s_operator.Entities.Agent.{TimeText}
use galera_k8s_operator.Entities.General.{GeneralTargetState, status_active}
use galera_k8s_operator.Entities.Node as Node_v1
use galera_k8s_operator.Entities.Node.{NodeTargetState}
use galera_k8s_operator.Storage.{nodes_from}
use galera_k8s_operator.Storage.Nodes.{prepend, visit_node_lem}
use galera_k8s_operator.Controller.Cluster.Decision.{IsActive}
use galera_k8s_operator.ControlPlane.Members.{home, IsNode, IsEntry}
use galera_k8s_operator.ControlPlane.Census.{visit_home}

module _ ⦃rfc : TimeText⦄ where
  -- A node that is stored as active
  pub record IsActiveResource (g : GeneralTargetState) : Type 0 where
    pub node : NodeTargetState
    pub decoded : Node_v1.from_general g ≡ ok node
    pub is_active : node.spec.status ≡ status_active

  abbrev pub AreActive : Table GeneralTargetState → Type 0
  AreActive gr =
      (k : String) (v : GeneralTargetState) → lookup k gr ≡ some v → IsNode v → IsActiveResource v

  AreActive-tail :
      (k : String) (v : GeneralTargetState) (gr : Table GeneralTargetState)
      → lookup k gr ≡ none
      → AreActive ((k, v) ∷ gr)
      → AreActive gr
  unfolding lookup
  AreActive-tail k v gr free h j u e m = elim (Bool-cases (k == j)) [
    | inl t ↦ cc (free, e, (eq_iff k j).0 t)
    | inr f ↦ h j u (rw f e) m
  ]

  AreActive-head :
      (k : String) (v : GeneralTargetState) (gr : Table GeneralTargetState) (m : IsNode v)
      → AreActive ((k, v) ∷ gr)
      → IsActive m.node
  unfolding lookup
  AreActive-head k v gr m h =
      let a = h k v (rw (eq_refl k) refl) m in
      let same : a.node ≡ m.node = ok-injective (sym a.decoded ∙ m.decoded) in
      subst IsActive same a.is_active

  -- If all nodes that are stored are active, then so are those that are returned.
  pub nodes_active :
      (gr : Table GeneralTargetState) (nodes : List NodeTargetState)
      → Distinct gr
      → All IsEntry gr
      → AreActive gr
      → nodes_from home.name gr ≡ ok nodes
      → All IsActive nodes
  unfolding nodes_from
  nodes_active [] nodes d a h e = subst (All IsActive) (ok-injective e) tt
  nodes_active ((k, v) ∷ gr) nodes d a h e =
      let tail = AreActive-tail k v gr d.0 h in
      elim a.0.known [
        | inl f ↦
            nodes_active gr nodes d.1 a.1 tail
              (sym (visit_home (nodes_from home.name gr)) ∙ (rw f at e))
        | inr m ↦
            let whole : prepend m.node (nodes_from home.name gr) ≡ ok nodes =
              sym (
                visit_node_lem home.name v m.node (nodes_from home.name gr) m.kind_same m.decoded
                  m.member.at_home)
              ∙ e in
            elim (Result-cases (nodes_from home.name gr)) [
              | inr (x, g) ↦ cc (rw g at whole)
              | inl (l, g) ↦
                  let same : m.node ∷ l ≡ nodes = ok-injective (rw g at whole) in
                  subst (All IsActive) same
                    (AreActive-head k v gr m h, nodes_active gr l d.1 a.1 tail g)
            ]
      ]
