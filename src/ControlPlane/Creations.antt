-- ===== src/ControlPlane/Creations.antt =====
-- What internal/controller/cluster/process_new_cluster.go plans for the cluster of Init.
use galera_k8s_operator.Base.{
  ℕ, ◌≤◌, pos, ltb_ℤ, ltb, eqb, ◌≡◌, refl, true, ◌⊎◌, inl, inr, List, [], ◌∷◌, arith, ◌||◌, length,
  Bool-cases,
}
use mathlib.Core.Path.{subst}
use galera_k8s_operator.Entities.Agent.{TimeText}
use galera_k8s_operator.Entities.Node.{NodeTargetState}
use galera_k8s_operator.Storage.{Storage}
use galera_k8s_operator.Controller.Cluster.{secondary_node, Tally, tally, no_tally}
use galera_k8s_operator.Controller.Cluster.Decision.{tally-length}
use galera_k8s_operator.ControlPlane.Plans.{
  Write, nothing, creation, plan_tally, plan_nodes, plan_new_cluster, plan_cluster,
}
use galera_k8s_operator.ControlPlane.Members.{home, home_resource, home_decoded, IsSane}
use galera_k8s_operator.ControlPlane.Census.{home_nodes}

pub small_cases : (n : ℕ) → 1 ≤ n → ltb n 3 ≡ true → (n ≡ 1) ⊎ (n ≡ 2)
small_cases n a b = elim (Bool-cases (eqb n 1)) [
  | inl t ↦ inl (ground arith)
  | inr f ↦ inr (ground arith)
]

module _ ⦃rfc : TimeText⦄ where
  -- A plan writes nothing, or creates the secondary that comes after `n` nodes.
  abbrev pub Creates : ℕ → Write → Type 0
  Creates n w =
      (w ≡ nothing)
      ⊎ ((n ≡ 1) × (w ≡ creation (secondary_node home 1)))
      ⊎ ((n ≡ 2) × (w ≡ creation (secondary_node home 2)))

  secondary-Creates :
      (n : ℕ) → 1 ≤ n → ltb n 3 ≡ true → Creates n (creation (secondary_node home n))
  secondary-Creates n a b = elim (small_cases n a b) [
    | inl e ↦ inr (inl (e, rw e refl))
    | inr e ↦ inr (inr (e, rw e refl))
  ]

  plan_tally-Creates : (t : Tally) → 1 ≤ t.active_nodes → Creates t.active_nodes (plan_tally home t)
  unfolding plan_tally
  plan_tally-Creates t a = elim (Bool-cases (eqb t.primary_nodes 0 || ltb 1 t.primary_nodes)) [
    | inl e ↦ rw (e, plan_tally) (inl refl)
    | inr e ↦ elim (Bool-cases t.at_least_one_isnt_active) [
      | inl f ↦ rw (e, f, plan_tally) (inl refl)
      | inr f ↦ elim (Bool-cases (ltb_ℤ (pos t.active_nodes) home.spec.replicas)) [
        | inl h ↦ rw (e, f, plan_tally, h) (secondary-Creates t.active_nodes a (ground arith))
        | inr h ↦ rw (e, f, plan_tally, h) (inl refl)
      ]
    ]
  ]

  plan_nodes-Creates :
      (nodes : List NodeTargetState)
      → 1 ≤ length nodes
      → Creates (length nodes) (plan_nodes home nodes)
  unfolding plan_nodes
  plan_nodes-Creates [] h = absurd (omega arith)
  plan_nodes-Creates (n ∷ nodes) h =
      let same = tally-length (n ∷ nodes) in
      subst (λ k. Creates k (plan_tally home (tally (n ∷ nodes) no_tally))) same
        (plan_tally-Creates (tally (n ∷ nodes) no_tally) (rw same h))

  -- At a sane storage the controller of clusters creates nothing, or the secondary that comes after
  -- the nodes that are there.
  pub plan_cluster_cases :
      (s : Storage) (h : IsSane s)
      → Creates (length (home_nodes s h).nodes) (plan_cluster home_resource s)
  unfolding plan_cluster plan_new_cluster
  plan_cluster_cases s h =
      let found = home_nodes s h in
      rw (home_decoded, plan_cluster, found.read, plan_new_cluster)
        (plan_nodes-Creates found.nodes found.some_node)
