-- ===== src/ControlPlane/System.antt =====
-- The goroutines of cmd/controller-manager/main.go over one storage, in any order: the controller
-- manager lists the resources of a controller and starts a goroutine for each (doIteration of
-- internal/controller-manager/controller_manager.go), and net/http starts one for each request. A
-- job is a goroutine before its read, or between its read and its write; both take the lock of the
-- storage for themselves alone. A job may wait for ever, so that the limiter, the ticker and a
-- context that is cancelled only leave out some of these orders. The range over the storage is in the
-- order of its entries at each read, where Go takes another order each time: here that fixes the
-- order of the addresses that a secondary is told, and nothing else that is written.
use galera_k8s_operator.Base.{ℕ, ◌≡◌, List, [], ◌∷◌, ◌++◌, map, ok}
use galera_k8s_operator.Entities.Agent.{TimeText}
use galera_k8s_operator.Entities.General.{GeneralTargetState}
use galera_k8s_operator.Storage.{Storage, new_storage}
use galera_k8s_operator.StateApi.{Request}
use galera_k8s_operator.Controller.Cluster as Cluster_controller
use galera_k8s_operator.Controller.Node as Node_controller
use galera_k8s_operator.ControlPlane.Plans.{Write, perform, plan_cluster, plan_node, plan_heartbeat}

pub data Job : Type 0 where
  cluster_job : GeneralTargetState → Job
  node_job : GeneralTargetState → Job
  write_job : Write → Job

pub record System : Type 0 where
  pub storage : Storage
  pub jobs : List Job

module _ ⦃rfc : TimeText⦄ where
  pub data Step (s : System) : System → Type 0 where
    list_clusters :
        (l : List GeneralTargetState)
        → Cluster_controller.get_resources s.storage ≡ ok l
        → Step s (record s { jobs = s.jobs ++ map cluster_job l })
    list_nodes :
        (l : List GeneralTargetState)
        → Node_controller.get_resources s.storage ≡ ok l
        → Step s (record s { jobs = s.jobs ++ map node_job l })
    read_cluster :
        (a b : List Job) (r : GeneralTargetState)
        → s.jobs ≡ a ++ cluster_job r ∷ b
        → Step s (record s { jobs = a ++ write_job (plan_cluster r s.storage) ∷ b })
    read_node :
        (a b : List Job) (r : GeneralTargetState)
        → s.jobs ≡ a ++ node_job r ∷ b
        → Step s (record s { jobs = a ++ write_job (plan_node r s.storage) ∷ b })
    read_report :
        (now : ℕ) (req : Request)
        → Step s (record s { jobs = write_job (plan_heartbeat now req s.storage) ∷ s.jobs })
    write :
        (a b : List Job) (w : Write)
        → s.jobs ≡ a ++ write_job w ∷ b
        → Step s (record { storage = perform w s.storage; jobs = a ++ b })

  -- The storage of NewStorage, before a controller or a request
  pub data Reach : System → Type 0 where
    start : Reach (record { storage = new_storage; jobs = [] })
    later : {s t : System} → Reach s → Step s t → Reach t
