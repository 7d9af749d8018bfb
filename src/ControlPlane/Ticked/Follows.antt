-- ===== src/ControlPlane/Ticked/Follows.antt =====
-- Jobs that the goroutines of cmd/controller-manager/main.go may have, in any order of the list, and
-- what each step of one of them leads to.
use galera_k8s_operator.Base.{ℕ, ◌≡◌, refl, ap, List, [], ◌∷◌, ◌++◌, map, ok, pull}
use mathlib.Core.List.{Permᴰ}
use mathlib.Core.List.Permᴰ
use galera_k8s_operator.Entities.Agent.{TimeText}
use galera_k8s_operator.Entities.General.{GeneralTargetState}
use galera_k8s_operator.Storage.{Storage}
use galera_k8s_operator.StateApi.{Request}
use galera_k8s_operator.Controller.Cluster as Cluster_controller
use galera_k8s_operator.Controller.Node as Node_controller
use galera_k8s_operator.ControlPlane.Plans.{Write, perform, plan_cluster, plan_node, plan_heartbeat}
use galera_k8s_operator.ControlPlane.System.{Job, cluster_job, node_job, write_job, System}
use galera_k8s_operator.ControlPlane.System
use galera_k8s_operator.ControlPlane.Ticked.{look}

module _ ⦃rfc : TimeText⦄ where
  -- A state of the control plane with a given storage and given jobs, in some order
  pub record Follows (s : Storage) (l : List Job) : Type 0 where
    pub state : System
    pub reached : System.Reach state
    pub same : state.storage ≡ s
    pub found : Permᴰ l state.jobs

  pub rearranged : (s : Storage) (l k : List Job) → Permᴰ k l → Follows s l → Follows s k
  rearranged s l k p f = record {
    state = f.state;
    reached = f.reached;
    same = f.same;
    found = Permᴰ.trans p f.found;
  }

  pub look-Follows :
      (s : Storage) (j : Job) (rest : List Job) → Follows s (j ∷ rest) → Follows s (look s j ∷ rest)
  unfolding look
  look-Follows s (write_job w) rest f = f
  look-Follows s (cluster_job r) rest f =
      let p = pull [] rest (cluster_job r) f.found refl in
      rw (← f.same) (record {
        state = _;
        reached = System.later f.reached (System.read_cluster p.before p.after r p.parts);
        same = refl;
        found = Permᴰ.trans (Permᴰ.cons refl p.others) (
            Permᴰ.symm
              (Permᴰ.middle (write_job (plan_cluster r f.state.storage)) p.before p.after));
      })
  look-Follows s (node_job r) rest f =
      let p = pull [] rest (node_job r) f.found refl in
      rw (← f.same) (record {
        state = _;
        reached = System.later f.reached (System.read_node p.before p.after r p.parts);
        same = refl;
        found =
            Permᴰ.trans (Permᴰ.cons refl p.others) (
              Permᴰ.symm (Permᴰ.middle (write_job (plan_node r f.state.storage)) p.before p.after));
      })

  pub write-Follows :
      (s : Storage) (w : Write) (rest : List Job)
      → Follows s (write_job w ∷ rest)
      → Follows (perform w s) rest
  write-Follows s w rest f =
      let p = pull [] rest (write_job w) f.found refl in
      record {
        state = _;
        reached = System.later f.reached (System.write p.before p.after w p.parts);
        same = ap (perform w) f.same;
        found = p.others;
      }

  pub clusters-Follows :
      (s : Storage) (k : List Job) (l : List GeneralTargetState)
      → Cluster_controller.get_resources s ≡ ok l
      → Follows s k
      → Follows s (map cluster_job l ++ k)
  clusters-Follows s k l e f = record {
    state = _;
    reached = System.later f.reached (System.list_clusters l (rw f.same e));
    same = f.same;
    found =
        Permᴰ.trans (Permᴰ.append_comm (map cluster_job l) k)
          (Permᴰ.append_right (map cluster_job l) f.found);
  }

  pub nodes-Follows :
      (s : Storage) (k : List Job) (l : List GeneralTargetState)
      → Node_controller.get_resources s ≡ ok l
      → Follows s k
      → Follows s (map node_job l ++ k)
  nodes-Follows s k l e f = record {
    state = _;
    reached = System.later f.reached (System.list_nodes l (rw f.same e));
    same = f.same;
    found =
        Permᴰ.trans (Permᴰ.append_comm (map node_job l) k)
          (Permᴰ.append_right (map node_job l) f.found);
  }

  pub report-Follows :
      (s : Storage) (k : List Job) (now : ℕ) (req : Request)
      → Follows s k
      → Follows s (write_job (plan_heartbeat now req s) ∷ k)
  report-Follows s k now req f = rw (← f.same) (record {
    state = _;
    reached = System.later f.reached (System.read_report now req);
    same = refl;
    found = Permᴰ.cons refl f.found;
  })
