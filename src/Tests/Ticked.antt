-- ===== src/Tests/Ticked.antt =====
-- The control plane with its ticker in a concrete order.
use galera_k8s_operator.Base.{◌≤◌, ◌≡◌, refl, List, [], ◌∷◌, ok, length, arith, none}
use mathlib.Core.List.{Permᴰ}
use galera_k8s_operator.Entities.Node.{NodeTargetState}
use galera_k8s_operator.Storage.{new_storage, initial_cluster, initial_node, get_nodes_by_cluster}
use galera_k8s_operator.Controller.Cluster.Decision.{primaries}
use galera_k8s_operator.Controller.Cluster.Reconcile.{fresh_resource}
use galera_k8s_operator.ControllerManager as Manager
use galera_k8s_operator.ControllerManager.{Iteration}
use galera_k8s_operator.ControlPlane.Plans.{perform, plan_node, plan_heartbeat}
use galera_k8s_operator.ControlPlane.System.{Job, node_job, write_job, System}
use galera_k8s_operator.ControlPlane.System
use galera_k8s_operator.ControlPlane.Ticked.{Plane, IsLoopOver, Turn, Move}
use galera_k8s_operator.ControlPlane.Ticked
use galera_k8s_operator.ControlPlane.Ticked.Limits.{ticked_nodes}
use galera_k8s_operator.ControlPlane.Ticked.Refinement.{all_jobs, refined}
use galera_k8s_operator.Tests.Data.{two_times}
use galera_k8s_operator.Tests.Plane.{report_request, first_listed}

-- An iteration over nothing, and one over the first node, whose goroutine has read
abbrev empty_iteration : Iteration Job
empty_iteration = record {
  pending = [];
  admitted = none;
  running = [];
  finished = [];
  left_out = [];
}

abbrev first_plane : Plane
first_plane = record {
  storage = new_storage;
  clusters = empty_iteration;
  nodes = empty_iteration;
  others = [];
}

empty_begun : Manager.begin_iteration {A = Job} (ok []) ≡ ok empty_iteration
unfolding Manager.begin_iteration
empty_begun = refl

abbrev listed_iteration : Iteration Job
listed_iteration = record empty_iteration { pending = node_job (fresh_resource initial_node) ∷ [] }

listed_begun :
    Manager.begin_iteration (ok (node_job (fresh_resource initial_node) ∷ [])) ≡ ok listed_iteration
unfolding Manager.begin_iteration
listed_begun = refl

-- A tick, the limiter, a report that comes before the goroutine reads, and both writes
abbrev last_plane : Plane
last_plane = record {
  storage =
      perform (plan_heartbeat 5 report_request new_storage)
        (perform (plan_node (fresh_resource initial_node) new_storage) new_storage);
  clusters = empty_iteration;
  nodes = record empty_iteration {
    finished = write_job (plan_node (fresh_resource initial_node) new_storage) ∷ [];
  };
  others = [];
}

last_plane-Reach : Ticked.Reach last_plane
unfolding Ticked.look
last_plane-Reach =
    Ticked.later
      (Ticked.later
        (Ticked.later
          (Ticked.later
            (Ticked.later
              (Ticked.later
                (Ticked.later (Ticked.start empty_iteration empty_begun) (
                  Move.nodes_begin (fresh_resource initial_node ∷ []) listed_iteration
                    (record { none_pending = refl; none_admitted = refl }) first_listed
                    listed_begun))
                (Move.nodes_turn new_storage _ (
                  Turn.loops _ (Manager.admit (node_job (fresh_resource initial_node)) [] refl refl)
                    tt)))
              (Move.nodes_turn new_storage _ (
                Turn.loops _
                  (Manager.start (node_job (fresh_resource initial_node)) refl (omega arith)) tt)))
            (Move.reported 5 report_request))
          (Move.nodes_turn new_storage _
            (Turn.looks [] [] (node_job (fresh_resource initial_node)) refl)))
        (Move.nodes_turn _ _
          (Turn.writes [] [] (plan_node (fresh_resource initial_node) new_storage) refl)))
      (Move.other_writes [] [] (plan_heartbeat 5 report_request new_storage) refl)

refined_example :
    (gone : List Job) × ((t : System) × System.Reach t
      × (t.storage ≡ last_plane.storage)
      × Permᴰ (all_jobs last_plane gone) t.jobs)
refined_example = refined last_plane last_plane-Reach

ticked_nodes_example :
    (length last_plane.clusters.running ≤ 20)
    × (length last_plane.nodes.running ≤ 20)
    × ((nodes : List NodeTargetState) × (get_nodes_by_cluster initial_cluster.name
            last_plane.storage
          ≡ ok nodes)
        × (1 ≤ length nodes)
        × (length nodes ≤ 3)
        × (primaries nodes ≡ 1))
ticked_nodes_example = ticked_nodes last_plane last_plane-Reach
