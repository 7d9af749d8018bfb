-- ===== src/ControlPlane/Census.antt =====
-- What GetNodesByCluster returns of a storage that holds the cluster of Init and its nodes.
use galera_k8s_operator.Base.{
  ℕ, ◌+◌, String, ◌≡◌, ◌≢◌, refl, ◌∙◌, ap, sym, false, ◌⊎◌, inl, inr, List, [], ◌∷◌, none, some,
  ◌==◌, eq_refl, if◌then◌else◌, arith, length, Result, ok, ◌>>=◌, Table, lookup, Distinct, All,
  Option-cases, ◌≤◌,
}
use galera_k8s_operator.Entities.Agent.{TimeText}
use galera_k8s_operator.Entities.General.{GeneralTargetState}
use galera_k8s_operator.Entities.Node as Node_v1
use galera_k8s_operator.Entities.Node.{NodeTargetState}
use galera_k8s_operator.Entities.Node.RoundTrip.{from_general_names}
use galera_k8s_operator.Storage.{
  Storage, resource_key, visit_node, nodes_from, get_nodes_by_cluster,
}
use galera_k8s_operator.Storage.Nodes.{visit_node_lem}
use galera_k8s_operator.Controller.Cluster.Decision.{primaries}
use galera_k8s_operator.ControlPlane.Members.{
  home, home_resource, IsSeat, seat_1, seat_2, seat_3, IsMember, IsNode, IsEntry, IsSane,
}

-- The key of a node
abbrev pub node_key : String → String
node_key name = resource_key Node_v1.kind name

abbrev pub present {ℓ} : {V : Type ℓ} → String → Table V → ℕ
present k gr = elim (lookup k gr) [ none ↦ 0 | some v ↦ 1 ]

module _ {ℓ} {V : Type ℓ} (k : String) (v : V) (gr : Table V) where
  present_here : lookup k gr ≡ none → present k ((k, v) ∷ gr) ≡ 1 + present k gr
  unfolding lookup
  present_here e = rw (eq_refl k, present, e)

  present_there : (j : String) → (k == j) ≡ false → present j ((k, v) ∷ gr) ≡ present j gr
  unfolding lookup
  present_there j e = rw (e, present)

pub seat_cases :
    {name role : String}
    → IsSeat name role
    → ((name ≡ "node-1") × (role ≡ "primary"))
      ⊎ ((name ≡ "node-2") × (role ≡ "secondary"))
      ⊎ ((name ≡ "node-3") × (role ≡ "secondary"))
seat_cases seat_1 = inl (refl, refl)
seat_cases seat_2 = inr (inl (refl, refl))
seat_cases seat_3 = inr (inr (refl, refl))

-- The keys are told apart.
pub keys_differ :
    ((node_key "node-1" == node_key "node-2") ≡ false)
    × ((node_key "node-1" == node_key "node-3") ≡ false)
    × ((node_key "node-2" == node_key "node-1") ≡ false)
    × ((node_key "node-2" == node_key "node-3") ≡ false)
    × ((node_key "node-3" == node_key "node-1") ≡ false)
    × ((node_key "node-3" == node_key "node-2") ≡ false)
unfolding resource_key
keys_differ = (refl, refl, refl, refl, refl, refl)

home_key_differs :
    ((resource_key home_resource.kind home_resource.name == node_key "node-1") ≡ false)
    × ((resource_key home_resource.kind home_resource.name == node_key "node-2") ≡ false)
    × ((resource_key home_resource.kind home_resource.name == node_key "node-3") ≡ false)
unfolding resource_key
home_key_differs = (refl, refl, refl)

abbrev pub places {ℓ} : {V : Type ℓ} → Table V → ℕ
places gr =
    present (node_key "node-1") gr + present (node_key "node-2") gr + present (node_key "node-3") gr

module _ ⦃rfc : TimeText⦄ where
  pub record Census (gr : Table GeneralTargetState) : Type 0 where
    pub nodes : List NodeTargetState
    pub read : nodes_from home.name gr ≡ ok nodes
    pub members : All IsMember nodes
    pub counted : length nodes ≡ places gr
    pub one_primary : primaries nodes ≡ present (node_key "node-1") gr

  pub visit_home :
      (rest : Result (List NodeTargetState)) → visit_node home.name home_resource rest ≡ rest
  unfolding visit_node
  visit_home rest = refl

  Census-home :
      (k : String) (gr : Table GeneralTargetState)
      → k ≡ resource_key home_resource.kind home_resource.name
      → Census gr
      → Census ((k, home_resource) ∷ gr)
  unfolding nodes_from
  Census-home k gr e c =
      let (d1, d2, d3) = home_key_differs in
      let h1 = present_there k home_resource gr (node_key "node-1") (rw e d1) in
      let h2 = present_there k home_resource gr (node_key "node-2") (rw e d2) in
      let h3 = present_there k home_resource gr (node_key "node-3") (rw e d3) in
      record {
        nodes = c.nodes;
        read = visit_home (nodes_from home.name gr) ∙ c.read;
        members = c.members;
        counted = omega (arith, c.counted, h1, h2, h3);
        one_primary = c.one_primary ∙ sym h1;
      }

  -- Where a node stands, the counts grow by it.
  node_counts :
      (k : String) (v : GeneralTargetState) (gr : Table GeneralTargetState) (n : NodeTargetState)
      → k ≡ node_key n.name
      → IsSeat n.name n.spec.agent_target_state.node_role
      → lookup k gr ≡ none
      → (places ((k, v) ∷ gr) ≡ 1 + places gr)
        × (present (node_key "node-1") ((k, v) ∷ gr)
            ≡ (if n.spec.agent_target_state.node_role == "primary" then 1 else 0)
              + present (node_key "node-1") gr)
  node_counts k v gr n e seat free =
      let (d12, d13, d21, d23, d31, d32) = keys_differ in
      elim (seat_cases seat) [
        | inl (a, b) ↦
            let same : k ≡ node_key "node-1" = e ∙ ap node_key a in
            let h1 : present (node_key "node-1") ((k, v) ∷ gr)
                ≡ 1 + present (node_key "node-1") gr =
              rw (← same) (present_here k v gr free) in
            let h2 = present_there k v gr (node_key "node-2") (rw same d12) in
            let h3 = present_there k v gr (node_key "node-3") (rw same d13) in
            (omega (arith, h1, h2, h3), rw b h1)
        | inr (inl (a, b)) ↦
            let same : k ≡ node_key "node-2" = e ∙ ap node_key a in
            let h2 : present (node_key "node-2") ((k, v) ∷ gr)
                ≡ 1 + present (node_key "node-2") gr =
              rw (← same) (present_here k v gr free) in
            let h1 = present_there k v gr (node_key "node-1") (rw same d21) in
            let h3 = present_there k v gr (node_key "node-3") (rw same d23) in
            (omega (arith, h1, h2, h3), rw b (omega (arith, h1)))
        | inr (inr (a, b)) ↦
            let same : k ≡ node_key "node-3" = e ∙ ap node_key a in
            let h3 : present (node_key "node-3") ((k, v) ∷ gr)
                ≡ 1 + present (node_key "node-3") gr =
              rw (← same) (present_here k v gr free) in
            let h1 = present_there k v gr (node_key "node-1") (rw same d31) in
            let h2 = present_there k v gr (node_key "node-2") (rw same d32) in
            (omega (arith, h1, h2, h3), rw b (omega (arith, h1)))
      ]

  Census-node :
      (k : String) (v : GeneralTargetState) (gr : Table GeneralTargetState) (m : IsNode v)
      → k ≡ resource_key v.kind v.name
      → lookup k gr ≡ none
      → Census gr
      → Census ((k, v) ∷ gr)
  unfolding nodes_from
  Census-node k v gr m e free c =
      let (name_same, kind_same) = from_general_names v m.node m.decoded in
      let key : k ≡ node_key m.node.name = rw (name_same, ← m.kind_same) e in
      let (total, first) = node_counts k v gr m.node key m.member.seat free in
      record {
        nodes = m.node ∷ c.nodes;
        read =
            visit_node_lem home.name v m.node (nodes_from home.name gr) m.kind_same m.decoded
              m.member.at_home
            ∙ ap (λ r. r >>= λ l. ok (m.node ∷ l)) c.read;
        members = (m.member, c.members);
        counted = omega (arith, c.counted, total);
        one_primary = omega (arith, c.one_primary, first);
      }

  -- Every storage of this kind can be counted.
  pub census : (gr : Table GeneralTargetState) → Distinct gr → All IsEntry gr → Census gr
  unfolding nodes_from lookup
  census [] d a = record {
    nodes = [];
    read = refl;
    members = tt;
    counted = refl;
    one_primary = refl;
  }
  census ((k, v) ∷ gr) d a = elim a.0.known [
    | inl e ↦
        rw e (
          Census-home k gr (a.0.keyed ∙ ap (λ g. resource_key g.kind g.name) e) (census gr d.1 a.1))
    | inr m ↦ Census-node k v gr m a.0.keyed d.0 (census gr d.1 a.1)
  ]

  -- The nodes that GetNodesByCluster returns for the cluster.
  pub record HomeNodes (s : Storage) : Type 0 where
    pub nodes : List NodeTargetState
    pub read : get_nodes_by_cluster home.name s ≡ ok nodes
    pub members : All IsMember nodes
    pub counted : length nodes ≡ places s.gr
    pub some_node : 1 ≤ length nodes
    pub few : length nodes ≤ 3
    pub one_primary : primaries nodes ≡ 1

  pub present_le_one : (k : String) (gr : Table GeneralTargetState) → present k gr ≤ 1
  present_le_one k gr = ground arith

  pub present_found :
      (k : String) (gr : Table GeneralTargetState) → lookup k gr ≢ none → present k gr ≡ 1
  present_found k gr h = elim (Option-cases (lookup k gr)) [
    | inl e ↦ absurd (h e)
    | inr (v, e) ↦ rw (e, present)
  ]

  pub home_nodes : (s : Storage) → IsSane s → HomeNodes s
  unfolding get_nodes_by_cluster
  home_nodes s h =
      let c = census s.gr h.distinct h.entries in
      let first = present_found (node_key "node-1") s.gr h.first_there in
      let second = present_le_one (node_key "node-2") s.gr in
      let third = present_le_one (node_key "node-3") s.gr in
      record {
        nodes = c.nodes;
        read = c.read;
        members = c.members;
        counted = c.counted;
        some_node = omega (arith, c.counted, first);
        few = omega (arith, c.counted, first, second, third);
        one_primary = c.one_primary ∙ first;
      }
