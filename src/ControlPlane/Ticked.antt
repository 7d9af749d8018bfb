-- ===== src/ControlPlane/Ticked.antt =====
-- The goroutines of cmd/controller-manager/main.go as internal/controller-manager/controller_manager.go
-- schedules them: runController of each of the two controllers goes through one iteration at a
-- time and begins the next at a tick, when the loop of doIteration is over, while goroutines that
-- it started may still run; an iteration starts a goroutine when its own limiter allows it.
pub mod Follows
pub mod Turns
pub mod Refinement
pub mod Limits
use galera_k8s_operator.Base.{ℕ, ◌≡◌, List, [], ◌∷◌, ◌++◌, map, none, ok}
use galera_k8s_operator.Entities.Agent.{TimeText}
use galera_k8s_operator.Entities.General.{GeneralTargetState}
use galera_k8s_operator.Storage.{Storage, new_storage}
use galera_k8s_operator.StateApi.{Request}
use galera_k8s_operator.Controller.Cluster as Cluster_controller
use galera_k8s_operator.Controller.Node as Node_controller
use galera_k8s_operator.ControllerManager as Manager
use galera_k8s_operator.ControllerManager.{Iteration, begin_iteration}
use galera_k8s_operator.ControlPlane.Plans.{Write, perform, plan_cluster, plan_node, plan_heartbeat}
use galera_k8s_operator.ControlPlane.System.{Job, cluster_job, node_job, write_job}

-- The iteration that each controller is at, and the goroutines of earlier iterations and of requests
pub record Plane : Type 0 where
  pub storage : Storage
  pub clusters : Iteration Job
  pub nodes : Iteration Job
  pub others : List Job

-- The loop of doIteration has come to its end.
pub record IsLoopOver (i : Iteration Job) : Type 0 where
  pub none_pending : i.pending ≡ []
  pub none_admitted : i.admitted ≡ none

-- A step of the loop, and not the end of a goroutine
abbrev pub IsLoop : {i j : Iteration Job} → Manager.Step i j → Type 0
IsLoop (Manager.admit r rest e f) = Unit
IsLoop (Manager.cancel r rest e f) = Unit
IsLoop (Manager.start r e f) = Unit
IsLoop (Manager.finish a r b e) = ⊥

module _ ⦃rfc : TimeText⦄ where
  -- A goroutine reads the storage, if it has not yet.
  unfoldable pub look : Storage → Job → Job
  look s (cluster_job r) = write_job (plan_cluster r s)
  look s (node_job r) = write_job (plan_node r s)
  look s (write_job w) = write_job w

  -- What the loop of an iteration and its goroutines do.
  pub data Turn (s : Storage) (i : Iteration Job) : Storage → Iteration Job → Type 0 where
    loops : (j : Iteration Job) (x : Manager.Step i j) → IsLoop x → Turn s i s j
    looks :
        (a b : List Job) (j : Job)
        → i.running ≡ a ++ j ∷ b
        → Turn s i s (record i { running = a ++ look s j ∷ b })
    writes :
        (a b : List Job) (w : Write)
        → i.running ≡ a ++ write_job w ∷ b
        → Turn s i
            (perform w s)
            (record i { running = a ++ b; finished = write_job w ∷ i.finished })

  pub data Move (m : Plane) : Plane → Type 0 where
    clusters_begin :
        (l : List GeneralTargetState) (i : Iteration Job)
        → IsLoopOver m.clusters
        → Cluster_controller.get_resources m.storage ≡ ok l
        → begin_iteration (ok (map cluster_job l)) ≡ ok i
        → Move m (record m { clusters = i; others = m.clusters.running ++ m.others })
    nodes_begin :
        (l : List GeneralTargetState) (i : Iteration Job)
        → IsLoopOver m.nodes
        → Node_controller.get_resources m.storage ≡ ok l
        → begin_iteration (ok (map node_job l)) ≡ ok i
        → Move m (record m { nodes = i; others = m.nodes.running ++ m.others })
    clusters_turn :
        (s : Storage) (i : Iteration Job)
        → Turn m.storage m.clusters s i
        → Move m (record m { storage = s; clusters = i })
    nodes_turn :
        (s : Storage) (i : Iteration Job)
        → Turn m.storage m.nodes s i
        → Move m (record m { storage = s; nodes = i })
    other_looks :
        (a b : List Job) (j : Job)
        → m.others ≡ a ++ j ∷ b
        → Move m (record m { others = a ++ look m.storage j ∷ b })
    other_writes :
        (a b : List Job) (w : Write)
        → m.others ≡ a ++ write_job w ∷ b
        → Move m (record m { storage = perform w m.storage; others = a ++ b })
    reported :
        (now : ℕ) (req : Request)
        → Move m (record m { others = write_job (plan_heartbeat now req m.storage) ∷ m.others })

  -- The storage of NewStorage, before the first tick and the first request
  pub data Reach : Plane → Type 0 where
    start :
        (i : Iteration Job)
        → begin_iteration (ok []) ≡ ok i
        → Reach (record { storage = new_storage; clusters = i; nodes = i; others = [] })
    later : {m n : Plane} → Reach m → Move m n → Reach n
