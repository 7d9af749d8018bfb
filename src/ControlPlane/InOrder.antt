-- ===== src/ControlPlane/InOrder.antt =====
-- The nodes that cmd/controller-manager/main.go holds, in every order of its goroutines.
use galera_k8s_operator.Base.{
  ℕ, ◌+◌, ◌≤◌, ◌≡◌, ◌≢◌, refl, sym, ◌∙◌, ◌↔◌, inl, inr, List, [], ◌∷◌, ◌++◌, map, none, Option,
  some, eq_iff, arith, decimal, length, All, All-append, All-split, lookup, Result-cases,
  Option-cases, ok,
}
use galera_k8s_operator.Entities.Agent.{TimeText}
use galera_k8s_operator.Entities.General.{GeneralTargetState}
use galera_k8s_operator.Entities.Node as Node_v1
use galera_k8s_operator.Entities.Node.{NodeTargetState}
use galera_k8s_operator.Entities.Node.RoundTrip.{to_general-eq-ok}
use galera_k8s_operator.Storage.{
  Storage, new_storage, initial_cluster, resource_key, get_nodes_by_cluster,
}
use galera_k8s_operator.Storage.Laws.{stored}
use galera_k8s_operator.Controller.Cluster.{secondary_node}
use galera_k8s_operator.ControlPlane.Plans.{
  perform, plan_cluster, plan_node, plan_heartbeat, creation,
}
use galera_k8s_operator.ControlPlane.Members.{home, home_resource, IsSane}
use galera_k8s_operator.ControlPlane.Census.{
  node_key, present, places, keys_differ, home_nodes, present_le_one, present_found,
}
use galera_k8s_operator.ControlPlane.Creations.{plan_cluster_cases}
use galera_k8s_operator.ControlPlane.Growth.{perform-keeps}
use galera_k8s_operator.ControlPlane.Places.{
  IsOrdered, IsPlaced, Keeps, IsPlaced-later, CreatesNone-IsPlaced, perform-IsOrdered,
  plan_node-CreatesNone, plan_heartbeat-CreatesNone,
}
use galera_k8s_operator.ControlPlane.Start.{no_third}
use galera_k8s_operator.ControlPlane.Safety.{IsJob, IsSound, Reach-IsSound}
use galera_k8s_operator.ControlPlane.System.{
  Job, cluster_job, node_job, write_job, System, Step, list_clusters, list_nodes, read_cluster,
  read_node, read_report, write, Reach, start, later,
}

-- The second and the third place, by how many nodes there are
seats_counted :
    {V : Type 0} (a b : Option V) (n : ℕ)
    → (b ≢ none → a ≢ none)
    → n ≡ 1 + elim a [ none ↦ 0 | some v ↦ 1 ] + elim b [ none ↦ 0 | some v ↦ 1 ]
    → ((a ≢ none) ↔ (2 ≤ n)) × ((b ≢ none) ↔ (n ≡ 3))
seats_counted none none n h e =
    ((λ f. absurd (f refl), λ f. omega arith), (λ f. absurd (f refl), λ f. omega arith))
seats_counted (some v) none n h e =
    ((λ f. omega arith, λ f g. cc g), (λ f. absurd (f refl), λ f. omega arith))
seats_counted none (some w) n h e = absurd (h (λ f. cc f) refl)
seats_counted (some v) (some w) n h e =
    ((λ f. omega arith, λ f g. cc g), (λ f. omega arith, λ f g. cc g))

module _ ⦃rfc : TimeText⦄ where
  creation-IsPlaced :
      (s : Storage) (n : NodeTargetState)
      → (resource_key n.kind n.name ≡ node_key "node-3" → lookup (node_key "node-2") s.gr ≢ none)
      → IsPlaced s (creation n)
  unfolding creation
  creation-IsPlaced s n h = elim (Result-cases (Node_v1.to_general n)) [
    | inr (x, e) ↦ rw (e, creation) tt
    | inl (g, e) ↦ let (j, f, same) = to_general-eq-ok n g e in rw (e, creation, ← same) h
  ]

  second_elsewhere :
      resource_key (secondary_node home 1).kind (secondary_node home 1).name ≢ node_key "node-3"
  unfolding secondary_node decimal
  second_elsewhere e =
      let (d12, d13, d21, d23, d31, d32) = keys_differ in
      cc ((eq_iff (node_key "node-2") (node_key "node-3")).1 e, d23)

  -- With two nodes, the second is "node-2".
  second_there :
      (s : Storage)
      → IsSane s
      → IsOrdered s
      → places s.gr ≡ 2
      → lookup (node_key "node-2") s.gr ≢ none
  second_there s h o e = elim (Option-cases (lookup (node_key "node-2") s.gr)) [
    | inr (v, f) ↦ λ n. cc (n, f)
    | inl f ↦ elim (Option-cases (lookup (node_key "node-3") s.gr)) [
      | inr (v, g) ↦ absurd (o (λ n. cc (n, g)) f)
      | inl g ↦ λ n. omega (arith, present_le_one (node_key "node-1") s.gr, rw (f, g, present) at e)
    ]
  ]

  plan_cluster-IsPlaced :
      (s : Storage) → IsSane s → IsOrdered s → IsPlaced s (plan_cluster home_resource s)
  plan_cluster-IsPlaced s h o = elim (plan_cluster_cases s h) [
    | inl e ↦ rw e tt
    | inr (inl (k, e)) ↦
        rw e (creation-IsPlaced s (secondary_node home 1) (λ same. absurd (second_elsewhere same)))
    | inr (inr (k, e)) ↦ rw e (
        creation-IsPlaced s (secondary_node home 2)
          (λ same. second_there s h o (sym (home_nodes s h).counted ∙ k)))
  ]

  abbrev IsPlacedJob : Storage → Job → Type 0
  IsPlacedJob s (cluster_job r) = Unit
  IsPlacedJob s (node_job r) = Unit
  IsPlacedJob s (write_job w) = IsPlaced s w

  record IsFilling (s : System) : Type 0 where
    ordered : IsOrdered s.storage
    placed : All (IsPlacedJob s.storage) s.jobs

  clusters_placed :
      (s : Storage) (l : List GeneralTargetState) → All (IsPlacedJob s) (map cluster_job l)
  clusters_placed s [] = tt
  clusters_placed s (g ∷ l) = (tt, clusters_placed s l)

  nodes_placed : (s : Storage) (l : List GeneralTargetState) → All (IsPlacedJob s) (map node_job l)
  nodes_placed s [] = tt
  nodes_placed s (g ∷ l) = (tt, nodes_placed s l)

  placed_later :
      (s t : Storage) (l : List Job) → Keeps s t → All (IsPlacedJob s) l → All (IsPlacedJob t) l
  placed_later s t [] k a = tt
  placed_later s t (cluster_job r ∷ l) k a = (tt, placed_later s t l k a.1)
  placed_later s t (node_job r ∷ l) k a = (tt, placed_later s t l k a.1)
  placed_later s t (write_job w ∷ l) k a = (IsPlaced-later s t w k a.0, placed_later s t l k a.1)

  step-IsFilling : (s t : System) → Step s t → IsSound s → IsFilling s → IsFilling t
  step-IsFilling s t (list_clusters l e) h f = record {
    ordered = f.ordered;
    placed =
        All-append (IsPlacedJob s.storage) s.jobs (map cluster_job l) f.placed
          (clusters_placed s.storage l);
  }
  step-IsFilling s t (list_nodes l e) h f = record {
    ordered = f.ordered;
    placed =
        All-append (IsPlacedJob s.storage) s.jobs (map node_job l) f.placed
          (nodes_placed s.storage l);
  }
  step-IsFilling s t (read_cluster a b r e) h f =
      let (before, rest) =
        All-split (IsPlacedJob s.storage) a (cluster_job r ∷ b) (rw (← e) f.placed) in
      let (sound, same) = All-split IsJob a (cluster_job r ∷ b) (rw (← e) h.planned) in
      record {
        ordered = f.ordered;
        placed =
            All-append (IsPlacedJob s.storage) a (write_job (plan_cluster r s.storage) ∷ b) before
              (rw same.0 (plan_cluster-IsPlaced s.storage h.sane f.ordered), rest.1);
      }
  step-IsFilling s t (read_node a b r e) h f =
      let (before, rest) =
        All-split (IsPlacedJob s.storage) a (node_job r ∷ b) (rw (← e) f.placed) in
      record {
        ordered = f.ordered;
        placed =
            All-append (IsPlacedJob s.storage) a (write_job (plan_node r s.storage) ∷ b) before (
              CreatesNone-IsPlaced s.storage (plan_node r s.storage)
                  (plan_node-CreatesNone r s.storage),
              rest.1,
            );
      }
  step-IsFilling s t (read_report now req) h f = record {
    ordered = f.ordered;
    placed = (
      CreatesNone-IsPlaced s.storage (plan_heartbeat now req s.storage)
          (plan_heartbeat-CreatesNone now req s.storage),
      f.placed,
    );
  }
  step-IsFilling s t (write a b w e) h f =
      let (before, rest) =
        All-split (IsPlacedJob s.storage) a (write_job w ∷ b) (rw (← e) f.placed) in
      let keeps = perform-keeps w s.storage in
      record {
        ordered = perform-IsOrdered w s.storage rest.0 f.ordered;
        placed =
            placed_later s.storage (perform w s.storage) (a ++ b) keeps
              (All-append (IsPlacedJob s.storage) a b before rest.1);
      }

  new_storage-IsOrdered : IsOrdered new_storage
  new_storage-IsOrdered h = absurd (h no_third)

  Reach-IsFilling : (s : System) → Reach s → IsFilling s
  Reach-IsFilling s start = record { ordered = new_storage-IsOrdered; placed = tt }
  Reach-IsFilling t (later {s} r x) = step-IsFilling s t x (Reach-IsSound s r) (Reach-IsFilling s r)

  pub Reach-IsOrdered : (s : System) → Reach s → IsOrdered s.storage
  Reach-IsOrdered s r = (Reach-IsFilling s r).ordered

  -- In every state that is reached from NewStorage, in any order of the goroutines, the nodes stand
  -- in order: "node-2" is stored exactly if GetNodesByCluster of the cluster returns two nodes at
  -- least, and "node-3" exactly if it returns three.
  pub Reach-in_order :
      (s : System)
      → Reach s
      → (nodes : List NodeTargetState) × (get_nodes_by_cluster initial_cluster.name s.storage
          ≡ ok nodes)
        × ((stored Node_v1.kind "node-2" s.storage ≢ none) ↔ (2 ≤ length nodes))
        × ((stored Node_v1.kind "node-3" s.storage ≢ none) ↔ (length nodes ≡ 3))
  Reach-in_order s r =
      let h = (Reach-IsSound s r).sane in
      let found = home_nodes s.storage h in
      let order = Reach-IsOrdered s r in
      let first = present_found (node_key "node-1") s.storage.gr h.first_there in
      let (second, third) =
        seats_counted (lookup (node_key "node-2") s.storage.gr)
          (lookup (node_key "node-3") s.storage.gr) (length found.nodes) order
          (omega (arith, found.counted, first)) in
      (found.nodes, found.read, second, third)
