-- ===== src/Controller/Cluster/Decision.antt =====
-- When processNewCluster creates a node, and which.
use galera_k8s_operator.Base.{
  ℕ, ◌+◌, pos, ltb_ℤ, ltb, eqb, ◌≡◌, ◌≢◌, refl, sym, ◌∙◌, ◌↔◌, inl, inr, true, false, ◌||◌, List,
  [], ◌∷◌, none, ◌==◌, eq_iff, if◌then◌else◌, arith, length, All, Bool-cases, ap,
}
use galera_k8s_operator.Entities.Agent.{TimeText}
use galera_k8s_operator.Entities.General.{status_active}
use galera_k8s_operator.Entities.Node.{NodeTargetState}
use galera_k8s_operator.Entities.Cluster.{ClusterTargetState}
use galera_k8s_operator.Storage.{Storage}
use galera_k8s_operator.Controller.Cluster.{
  visit, secondary_node, Tally, no_tally, tally, create_node, after_tally, process_nodes,
}

abbrev pub IsActive : NodeTargetState → Type 0
IsActive node = node.spec.status ≡ status_active

abbrev pub primaries : List NodeTargetState → ℕ
primaries [] = 0
primaries (node ∷ nodes) =
    (if node.spec.agent_target_state.node_role == "primary" then 1 else 0) + primaries nodes

-- A cluster is due another node: one of its nodes is primary, each is active, and they are fewer
-- than its replicas.
pub record WantsSecondary (state : ClusterTargetState) (nodes : List NodeTargetState) : Type 0 where
  pub one_primary : primaries nodes ≡ 1
  pub all_active : All IsActive nodes
  pub short : ltb_ℤ (pos (length nodes)) state.spec.replicas ≡ true

tally-active_nodes :
    (nodes : List NodeTargetState) (t : Tally)
    → (tally nodes t).active_nodes ≡ t.active_nodes + length nodes
unfolding tally
tally-active_nodes [] t = omega arith
tally-active_nodes (node ∷ nodes) t = omega (arith, tally-active_nodes nodes (visit node t))

tally-primary_nodes :
    (nodes : List NodeTargetState) (t : Tally)
    → (tally nodes t).primary_nodes ≡ t.primary_nodes + primaries nodes
unfolding tally
tally-primary_nodes [] t = omega arith
tally-primary_nodes (node ∷ nodes) t = ground (arith, tally-primary_nodes nodes (visit node t))

pub tally_inactive_iff :
    (nodes : List NodeTargetState) (t : Tally)
    → ((tally nodes t).at_least_one_isnt_active ≡ false)
      ↔ ((t.at_least_one_isnt_active ≡ false) × All IsActive nodes)
unfolding tally
tally_inactive_iff [] t = (λ h. (h, tt), λ h. h.0)
tally_inactive_iff (node ∷ nodes) t =
    ground (arith, tally_inactive_iff nodes (visit node t), eq_iff node.spec.status status_active)

-- The loop's variables after it, by the description of the nodes.
pub tally-length :
    (nodes : List NodeTargetState) → (tally nodes no_tally).active_nodes ≡ length nodes
tally-length nodes = omega (arith, tally-active_nodes nodes no_tally)

pub tally-primaries :
    (nodes : List NodeTargetState) → (tally nodes no_tally).primary_nodes ≡ primaries nodes
tally-primaries nodes = omega (arith, tally-primary_nodes nodes no_tally)

module _ ⦃rfc : TimeText⦄ where
  after_tally_wanting :
      (state : ClusterTargetState) (t : Tally) (s : Storage)
      → t.primary_nodes ≡ 1
      → t.at_least_one_isnt_active ≡ false
      → ltb_ℤ (pos t.active_nodes) state.spec.replicas ≡ true
      → after_tally state t s ≡ create_node (secondary_node state t.active_nodes) s
  unfolding after_tally
  after_tally_wanting state t s p a f = rw (p, a, f)

  after_tally_waiting :
      (state : ClusterTargetState) (t : Tally) (s : Storage)
      → (t.primary_nodes ≡ 1
          → t.at_least_one_isnt_active ≡ false
          → ltb_ℤ (pos t.active_nodes) state.spec.replicas ≡ true
          → ⊥)
      → ((after_tally state t s).1 ≡ s) × ((after_tally state t s).0.error ≡ none)
  unfolding after_tally
  after_tally_waiting state t s w =
      elim (Bool-cases (eqb t.primary_nodes 0 || ltb 1 t.primary_nodes)) [
        | inl e ↦ rw e (refl, refl)
        | inr e ↦ elim (Bool-cases t.at_least_one_isnt_active) [
          | inl f ↦ rw (e, f) (refl, refl)
          | inr f ↦ elim (Bool-cases (ltb_ℤ (pos t.active_nodes) state.spec.replicas)) [
            | inl h ↦ absurd (w (ground arith) f h)
            | inr h ↦ rw (e, f, h) (refl, refl)
          ]
        ]
      ]

  -- Where a cluster is due another node, a secondary is created, numbered after the nodes there are.
  pub process_nodes_wanting :
      (state : ClusterTargetState) (nodes : List NodeTargetState) (s : Storage)
      → WantsSecondary state nodes
      → process_nodes state nodes s ≡ create_node (secondary_node state (length nodes)) s
  unfolding process_nodes
  process_nodes_wanting state [] s w = absurd (omega (arith, w.one_primary))
  process_nodes_wanting state (node ∷ nodes) s w =
      let all = node ∷ nodes in
      after_tally_wanting state (tally all no_tally) s (tally-primaries all ∙ w.one_primary)
        ((tally_inactive_iff all no_tally).1 (refl, w.all_active)) (rw (tally-length all) w.short)
      ∙ ap (λ n. create_node (secondary_node state n) s) (tally-length all)

  -- Where it has nodes and is not due another, nothing is stored and there is no error.
  pub process_nodes_waiting :
      (state : ClusterTargetState) (nodes : List NodeTargetState) (s : Storage)
      → nodes ≢ []
      → ¬ WantsSecondary state nodes
      → ((process_nodes state nodes s).1 ≡ s) × ((process_nodes state nodes s).0.error ≡ none)
  unfolding process_nodes
  process_nodes_waiting state [] s n w = absurd (n refl)
  process_nodes_waiting state (node ∷ nodes) s n w =
      let all = node ∷ nodes in
      after_tally_waiting state (tally all no_tally) s λ p a f. w (record {
        one_primary = sym (tally-primaries all) ∙ p;
        all_active = ((tally_inactive_iff all no_tally).0 a).1;
        short = rw (tally-length all) at f;
      })
