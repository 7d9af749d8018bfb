-- ===== src/Lib.antt =====
-- The control plane and the agent of the Galera operator.
--
-- The operator keeps target states of clusters and of nodes as resources in a storage in memory. The
-- controllers look at each resource in turn and write other resources; the state API takes reports
-- from the agents and gives them their target states; an agent beside each MariaDB writes the
-- configuration of Galera and starts and stops the process. All of them meet in the storage and in
-- the JSON of the resources, so the development has these parts:
--
-- Base: the names that the others share. Go's `(value, error)` is Result, a map with string keys is a
--   list of entries in the order that `range` visits them, and `int` is an integer over the native
--   numbers with its 64 bits as a predicate.
-- Json: encoding/json as the code uses it. Values are trees and not texts; the decoder fills a
--   variable from what it holds, skips unknown keys, and compares keys without case. The elements of
--   a slice are appended to an empty one, each decoded into a zero value, as Unmarshal is documented; Go
--   may keep parts of earlier elements where the key of the slice occurs twice in one object.
-- Entities: internal/entities and internal/agent/entities. Entities/General is the resource with its
--   deep copy; Entities/Node and Entities/Cluster go to and from it; Entities/Agent is the report and
--   the target state of an agent, Entities/AgentJson their JSON by the struct tags.
-- Storage: internal/in-memory-storage. Each method holds the lock throughout and is one function on
--   the storage. Storage/Keys is about the keys, Storage/Laws about each method, Storage/Laws/Invariant
--   about the storage as a map, Storage/Nodes about the nodes of a cluster, Storage/Order about the
--   order of a range. Storage/Interface is the interface Storage of internal/state-api/server.go, with
--   its laws, and the storage that keeps it.
-- Controller: Controller/Cluster and Controller/Node are internal/controller/cluster and
--   internal/controller/node, Controller/K8s is internal/k8s-controller/cluster, Controller/Stuck is
--   about two of them together. A function has the name of the method it models; `finish` is the
--   end of Reconcile, `process_nodes` and `after_tally` are the parts of processNewCluster.
--   Controller/Cluster/Creation has the nodes that are created, field by field.
-- StateApi: internal/state-api/server.go, both handlers over any storage of the interface. A response
--   is the status that was written first and the pieces of the body. StateApi/Server has the routes,
--   NewServer and Start; StateApi/Server/Routing is about what a client reaches.
-- Agent: Agent/Manager is internal/agent/mariadb/manager/manager.go as a step relation: methods, the
--   goroutine of finalize and the exits of processes in any order. Agent/Galera and Agent/Reconciler
--   are internal/agent/target-state-handler, Agent/HbCollector is internal/agent/hb-collector/hb.go
--   with GetWsrepInfo of internal/agent/mariadb/service/mariadb.go, Agent/StateManager is
--   internal/agent/target-state-manager/manager.go, Agent/BootstrapTask is
--   internal/agent/tasks/bootstrap with internal/agent/task-handler, Agent/TaskManager is
--   internal/agent/task-manager/manager.go with internal/agent/tasks/tasks.go, Agent/Service is the
--   rest of internal/agent/mariadb/service/mariadb.go, and Agent/Utils is
--   internal/agent/utils/utils.go. The options of a constructor are functions on its parameters. A
--   loop over a ticker is a function of the list of what its select receives.
-- ControllerManager: internal/controller-manager/controller_manager.go. One iteration is a step relation:
--   the loop's test of the context, its wait for the limiter, and the end of a goroutine.
--   runController and Run are functions of what their tickers give.
-- Commands: how the commands under cmd build their parts, with internal/agent/agent.go.
-- ControlPlane: the controllers and the state API of cmd/controller-manager/main.go together.
--   ControlPlane/Plans splits each reconciliation and the handling of a report where another goroutine
--   may come between, after its read and before its one write; ControlPlane/System interleaves them in
--   any order. Members, Census, Writes, Creations, Planned, Reports and Start say what the storage may
--   hold and that each step keeps it so; Safety, Growth, Stale, LateCreation, Activation and Order
--   have theorems on it. Places and InOrder are about the order in which nodes come; ScaleUp,
--   AllActive, Activate and Recovery about what can still be reached from any state. ControlPlane/Ticked
--   adds the ticker of runController and the limiter of doIteration: one iteration at a time for each
--   controller, while goroutines of earlier ones may still run. Ticked/Follows, Ticked/Turns and
--   Ticked/Refinement relate it to ControlPlane/System by a rearrangement of the goroutines.
-- Tests: the theorems at concrete values.
--
-- Every loop is structural recursion, over a list or a text. The digits of a number n are made on fuel
-- n + 1, which is more than there are digits. Times are nanoseconds since the zero time; how a time is
-- written and read is the instance TimeText. SHA-256, strconv.Atoi, the decoder of Kubernetes objects,
-- the file system, the HTTP client, the answers of the database, the host's address and the start of a
-- process are parameters, and so is chi's search for a route. An iteration of the controller manager
-- ends within three steps for each resource; the interleavings of ControlPlane have no bound.
--
-- Not modelled: the clocks of the tickers, the middleware and the shutdown of the server of the state
-- API, the driver of the database, the reading of the environment, signals, logging, and the text of
-- JSON; these are calls of libraries and of the runtime. In ControlPlane the parts run concurrently;
-- elsewhere each call is a function of the state that it meets. There the range over the storage is
-- always in the order of its entries, where Go takes another order at each call. The order decides
-- that of the addresses that a secondary is told, and that of the goroutines of an iteration, which
-- run in any order; that it does not decide about clusters is plan_cluster_order of
-- ControlPlane/Order.
pub mod Base
pub mod Json
pub mod Entities
pub mod Storage
pub mod Controller
pub mod StateApi
pub mod Agent
pub mod ControllerManager
pub mod Commands
pub mod ControlPlane
pub mod Tests
