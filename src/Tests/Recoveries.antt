-- ===== src/Tests/Recoveries.antt =====
-- What the control plane still reaches, and the order of its nodes, at concrete states.
use galera_k8s_operator.Base.{ℕ, ◌≤◌, ◌≡◌, ◌≢◌, ◌↔◌, refl, List, none, some, ok, length, arith, All}
use galera_k8s_operator.Entities.Agent
use galera_k8s_operator.Entities.Node
use galera_k8s_operator.Entities.Node.{NodeTargetState}
use galera_k8s_operator.Storage.{initial_cluster, get_nodes_by_cluster}
use galera_k8s_operator.Storage.Laws.{stored}
use galera_k8s_operator.Controller.Cluster.Decision.{IsActive}
use galera_k8s_operator.ControlPlane.System.{System}
use galera_k8s_operator.ControlPlane.Growth.{Leads}
use galera_k8s_operator.ControlPlane.InOrder.{Reach-in_order}
use galera_k8s_operator.ControlPlane.Recovery.{recovers}
use galera_k8s_operator.Tests.Data.{two_times, five}
use galera_k8s_operator.Tests.Plane.{last_state, last-Reach}

five_late : ◌≢◌ {A = ℕ} 5 0
five_late = omega arith

five_shown : Agent.TimeText.format two_times 5 ≡ some five
five_shown = refl

recovers_example :
    (t : System) × Leads last_state t
    × ((nodes : List NodeTargetState) × (get_nodes_by_cluster initial_cluster.name t.storage
          ≡ ok nodes)
        × All IsActive nodes
        × (length nodes ≡ 3))
recovers_example = recovers 5 five five_late five_shown last_state last-Reach

Reach-in_order_example :
    (nodes : List NodeTargetState) × (get_nodes_by_cluster initial_cluster.name last_state.storage
      ≡ ok nodes)
    × ((stored Node.kind "node-2" last_state.storage ≢ none) ↔ (2 ≤ length nodes))
    × ((stored Node.kind "node-3" last_state.storage ≢ none) ↔ (length nodes ≡ 3))
Reach-in_order_example = Reach-in_order last_state last-Reach
