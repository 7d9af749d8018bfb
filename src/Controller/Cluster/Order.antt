-- ===== src/Controller/Cluster/Order.antt =====
-- The decision of processNewCluster and the order of its nodes, which is that of a `range` over a map.
use galera_k8s_operator.Base.{◌≡◌, refl, ◌∙◌, ap, List, [], ◌∷◌, arith}
use mathlib.Core.Logic.{∥∥₁_elim}
use mathlib.Core.List.{Perm, Permᴰ}
use mathlib.Core.List.Perm
use native.Mathlib.Nat.{ℕ_set}
use galera_k8s_operator.Entities.Agent.{TimeText}
use galera_k8s_operator.Entities.Node.{NodeTargetState}
use galera_k8s_operator.Entities.Cluster.{ClusterTargetState}
use galera_k8s_operator.Storage.{Storage}
use galera_k8s_operator.Controller.Cluster.{
  Tally, visit, tally, no_tally, after_tally, process_nodes,
}

Tally_set : IsSet Tally
Tally_set = hlevel ℕ_set

visit_comm : (a b : NodeTargetState) (t : Tally) → visit a (visit b t) ≡ visit b (visit a t)
visit_comm a b t = ground arith

-- The variables after the loop, for two orders of the same nodes.
pub Permᴰ-tally : {a b : List NodeTargetState} → Permᴰ a b → (t : Tally) → tally a t ≡ tally b t
unfolding tally
Permᴰ-tally Permᴰ.nil t = refl
Permᴰ-tally (Permᴰ.cons {a} {b} {l₂ = m} e p) t =
    Permᴰ-tally p (visit a t) ∙ ap (λ n. tally m (visit n t)) e
Permᴰ-tally (Permᴰ.swap {a} {b} {b' = d} {l = l} e f) t =
    ap (tally l) (visit_comm b a t)
    ∙ ap (λ n. tally l (visit n (visit b t))) e
    ∙ ap (λ n. tally l (visit d (visit n t))) f
Permᴰ-tally (Permᴰ.trans p q) t = Permᴰ-tally p t ∙ Permᴰ-tally q t

tally-perm : {a b : List NodeTargetState} → Perm a b → tally a no_tally ≡ tally b no_tally
tally-perm p = ∥∥₁_elim p (Tally_set _ _) (λ d. Permᴰ-tally d no_tally)

module _ ⦃rfc : TimeText⦄ where
  -- The order in which the nodes of a cluster are listed does not matter to processNewCluster.
  pub order_indifferent :
      (c : ClusterTargetState) (s : Storage) (nodes nodes' : List NodeTargetState)
      → Perm nodes nodes'
      → process_nodes c nodes s ≡ process_nodes c nodes' s
  unfolding process_nodes
  order_indifferent c s [] [] p = refl
  order_indifferent c s [] (n ∷ ns) p = cc (Perm.nil-eq p)
  order_indifferent c s (n ∷ ns) [] p = cc (Perm.eq-nil p)
  order_indifferent c s (n ∷ ns) (m ∷ ms) p = ap (λ t. after_tally c t s) (tally-perm p)
