-- ===== src/ControlPlane/Ticked/Limits.antt =====
-- How many goroutines internal/controller-manager/controller_manager.go runs for each controller,
-- and what the storage of cmd/controller-manager/main.go holds meanwhile.
use galera_k8s_operator.Base.{◌≤◌, ◌≡◌, ap, List, [], length, ok, arith}
use galera_k8s_operator.Json.Bounds.{ok-injective}
use galera_k8s_operator.Entities.Agent.{TimeText}
use galera_k8s_operator.Entities.Node.{NodeTargetState}
use galera_k8s_operator.Storage.{Storage, initial_cluster, get_nodes_by_cluster}
use galera_k8s_operator.Controller.Cluster.Decision.{primaries}
use galera_k8s_operator.ControllerManager.{limit, Iteration, begin_iteration}
use galera_k8s_operator.ControllerManager.Progress.{length-middle, step_bounded}
use galera_k8s_operator.ControlPlane.Safety.{Reach-nodes}
use galera_k8s_operator.ControlPlane.System.{Job, write_job}
use galera_k8s_operator.ControlPlane.Ticked.{Plane, look, Turn, Move}
use galera_k8s_operator.ControlPlane.Ticked
use galera_k8s_operator.ControlPlane.Ticked.Refinement.{transfer}

abbrev IsBounded : Iteration Job → Type 0
IsBounded i = length i.running ≤ limit

begun-IsBounded : (l : List Job) (i : Iteration Job) → begin_iteration (ok l) ≡ ok i → IsBounded i
unfolding begin_iteration
begun-IsBounded l i e = rw (← ok-injective e) (omega arith)

abbrev AreBounded : Plane → Type 0
AreBounded m = IsBounded m.clusters × IsBounded m.nodes

module _ ⦃rfc : TimeText⦄ where
  Turn-IsBounded : (s t : Storage) (i j : Iteration Job) → Turn s i t j → IsBounded i → IsBounded j
  Turn-IsBounded s t i j (Turn.loops k x l) h = step_bounded i j x h
  Turn-IsBounded s t i j (Turn.looks a b r e) h =
      omega (arith, length-middle a r b, length-middle a (look s r) b, ap length e)
  Turn-IsBounded s t i j (Turn.writes a b w e) h =
      omega (arith, length-middle a (write_job w) b, ap length e)

  Move-AreBounded : (m n : Plane) → Move m n → AreBounded m → AreBounded n
  Move-AreBounded m n (Move.clusters_begin l i o e b) h = (begun-IsBounded _ i b, h.1)
  Move-AreBounded m n (Move.nodes_begin l i o e b) h = (h.0, begun-IsBounded _ i b)
  Move-AreBounded m n (Move.clusters_turn s i x) h =
      (Turn-IsBounded m.storage s m.clusters i x h.0, h.1)
  Move-AreBounded m n (Move.nodes_turn s i x) h = (h.0, Turn-IsBounded m.storage s m.nodes i x h.1)
  Move-AreBounded m n (Move.other_looks a b j e) h = h
  Move-AreBounded m n (Move.other_writes a b w e) h = h
  Move-AreBounded m n (Move.reported now req) h = h

  Reach-AreBounded : (m : Plane) → Ticked.Reach m → AreBounded m
  Reach-AreBounded m (Ticked.start i b) = (begun-IsBounded [] i b, begun-IsBounded [] i b)
  Reach-AreBounded n (Ticked.later {m} r x) = Move-AreBounded m n x (Reach-AreBounded m r)

  -- In every state that the control plane reaches from NewStorage with its ticker and its limiters,
  -- at most 20 goroutines of the current iteration of each controller run, and GetNodesByCluster of
  -- the cluster succeeds with at least one node and at most three, of which exactly one is a
  -- primary.
  pub ticked_nodes :
      (m : Plane)
      → Ticked.Reach m
      → (length m.clusters.running ≤ 20)
        × (length m.nodes.running ≤ 20)
        × ((nodes : List NodeTargetState) × (get_nodes_by_cluster initial_cluster.name m.storage
              ≡ ok nodes)
            × (1 ≤ length nodes)
            × (length nodes ≤ 3)
            × (primaries nodes ≡ 1))
  ticked_nodes m r = let (a, b) = Reach-AreBounded m r in (a, b, transfer _ Reach-nodes m r)
