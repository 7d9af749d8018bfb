-- ===== src/Storage/Nodes.antt =====
-- GetNodesByCluster of internal/in-memory-storage/node.go, after a node is added.
use galera_k8s_operator.Base.{
  String, ◌≡◌, refl, List, [], ◌∷◌, ◌++◌, none, ◌==◌, eq_iff, Result, ok, err, ◌>>=◌, Table, lookup,
  assign, Bool-cases, Result-cases, inl, inr, ◌⊎◌, Error,
}
use galera_k8s_operator.Entities.Agent.{TimeText}
use galera_k8s_operator.Entities.General.{GeneralTargetState}
use galera_k8s_operator.Entities.Node
use galera_k8s_operator.Entities.Node.{NodeTargetState}
use galera_k8s_operator.Storage.{Storage, visit_node, nodes_from, get_nodes_by_cluster}

abbrev pub prepend : NodeTargetState → Result (List NodeTargetState) → Result (List NodeTargetState)
prepend node rest = rest >>= λ l. ok (node ∷ l)

module _ ⦃rfc : TimeText⦄ (c : String) where
  -- An entry is passed over, is a node of the cluster, or fails.
  pub visit_node_cases :
      (v : GeneralTargetState)
      → ((rest : Result (List NodeTargetState)) → visit_node c v rest ≡ rest)
        ⊎ ((node : NodeTargetState) × ((rest : Result (List NodeTargetState))
              → visit_node c v rest ≡ prepend node rest))
        ⊎ ((x : Error) × ((rest : Result (List NodeTargetState)) → visit_node c v rest ≡ err x))
  unfolding visit_node
  visit_node_cases v = elim (Bool-cases (v.kind == Node.kind)) [
    | inr k ↦ inl (λ rest. rw (k, visit_node))
    | inl k ↦ elim (Result-cases (Node.from_general v)) [
      | inr (x, f) ↦ inr (inr (x, λ rest. rw (k, f, visit_node)))
      | inl (node, f) ↦ elim (Bool-cases (node.spec.cluster_name == c)) [
        | inl g ↦ inr (inl (node, λ rest. rw (k, f, g, visit_node)))
        | inr g ↦ inl (λ rest. rw (k, f, g, visit_node))
      ]
    ]
  ]

  visit_node-append :
      (v : GeneralTargetState) (rest : Result (List NodeTargetState)) {nodes : List NodeTargetState}
      → visit_node c v rest ≡ ok nodes
      → (l : List NodeTargetState) × (rest ≡ ok l)
        × ((m : List NodeTargetState) → visit_node c v (ok (l ++ m)) ≡ ok (nodes ++ m))
  visit_node-append v (err x) e = elim (visit_node_cases v) [
    | inl f ↦ cc (f (err x))
    | inr (inl (node, f)) ↦ cc (f (err x))
    | inr (inr (y, f)) ↦ cc (f (err x))
  ]
  visit_node-append v (ok l) {nodes} e = elim (visit_node_cases v) [
    | inl f ↦ let same : l ≡ nodes = cc (f (ok l)) in (l, refl, λ m. rw (f (ok (l ++ m)), ← same))
    | inr (inl (node, f)) ↦
        let same : node ∷ l ≡ nodes = cc (f (ok l)) in (l, refl, λ m. rw (f (ok (l ++ m)), ← same))
    | inr (inr (y, f)) ↦ cc (f (ok l))
  ]

  pub visit_node_lem :
      (g : GeneralTargetState) (n : NodeTargetState) (rest : Result (List NodeTargetState))
      → g.kind ≡ Node.kind
      → Node.from_general g ≡ ok n
      → n.spec.cluster_name ≡ c
      → visit_node c g rest ≡ prepend n rest
  unfolding visit_node
  visit_node_lem g n rest a b d =
      rw ((eq_iff g.kind Node.kind).1 a, b, (eq_iff n.spec.cluster_name c).1 d, visit_node)

  nodes_from-assign :
      (k : String) (g : GeneralTargetState) (gr : Table GeneralTargetState)
      (nodes : List NodeTargetState) (n : NodeTargetState)
      → lookup k gr ≡ none
      → nodes_from c gr ≡ ok nodes
      → g.kind ≡ Node.kind
      → Node.from_general g ≡ ok n
      → n.spec.cluster_name ≡ c
      → nodes_from c (assign k g gr) ≡ ok (nodes ++ n ∷ [])
  unfolding nodes_from lookup assign
  nodes_from-assign k g [] nodes n h e a b d =
      let same : [] ≡ nodes = cc e in rw (visit_node_lem g n (ok []) a b d, ← same)
  nodes_from-assign k g ((j, v) ∷ gr) nodes n h e a b d = elim (Bool-cases (j == k)) [
    | inl f ↦ cc (rw f at h)
    | inr f ↦
        let (l, was, now) = visit_node-append v (nodes_from c gr) e in
        rw (f, nodes_from-assign k g gr l n (rw f at h) was a b d) (now (n ∷ []))
  ]

  -- A node of the cluster that is created under a key not yet used comes after the others.
  pub get_nodes-assign :
      (k : String) (g : GeneralTargetState) (s : Storage) (nodes : List NodeTargetState)
      (n : NodeTargetState)
      → lookup k s.gr ≡ none
      → get_nodes_by_cluster c s ≡ ok nodes
      → g.kind ≡ Node.kind
      → Node.from_general g ≡ ok n
      → n.spec.cluster_name ≡ c
      → get_nodes_by_cluster c (record { gr = assign k g s.gr }) ≡ ok (nodes ++ n ∷ [])
  unfolding get_nodes_by_cluster
  get_nodes-assign k g s nodes n h e a b d = nodes_from-assign k g s.gr nodes n h e a b d
