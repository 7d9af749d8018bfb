-- ===== src/Agent/TaskManager.antt =====
-- internal/agent/task-manager/manager.go: how an agent asks for its next task, and one tick of
-- RunForever; and the JSON of a task in internal/agent/tasks/tasks.go.
pub mod Laws
use Prim.Native.String as Text
use galera_k8s_operator.Base.{
  ℕ, String, List, [], ◌∷◌, Option, none, some, eqb, if◌then◌else◌, decimal, new, wrap, Result, ok,
  err, ◌>>=◌, or_wrap, map_ok,
}
use galera_k8s_operator.Json.{RawMessage, raw, parse}
use galera_k8s_operator.Entities.Agent.{GeneralTask, zero_task}
use galera_k8s_operator.Entities.AgentJson.{encode_task, decode_task}
use galera_k8s_operator.Agent.StateManager.{Answer, HttpClient}

-- ToJSON: three texts can always be marshalled.
unfoldable pub to_json : GeneralTask → Result RawMessage
to_json g = ok (raw (encode_task g))

-- FromJSON: into a fresh task, whose fields are then copied to the receiver.
unfoldable pub from_json : RawMessage → GeneralTask → Result GeneralTask
from_json text g = do
  gt ← or_wrap "failed to unmarshal task" (parse text >>= λ j. decode_task j zero_task)
  ok (record g { id = gt.id; name = gt.name; payload = gt.payload })

-- The interface TaskHandler, over the world `W` that a handler acts on
pub record TaskHandler (W : Type 0) : Type 0 where
  pub handle : GeneralTask → W → Result (Unit {0}) × W

-- The logger and the HTTP client are of types that are not looked into.
pub record TaskManager (L H W : Type 0) : Type 0 where
  pub agent_id : String
  pub server_url : String
  pub logger : L
  pub http_client : H
  pub task_handler : TaskHandler W

-- NewTaskManager; `client` is `&http.Client{}`.
unfoldable pub new_task_manager :
    {L H W : Type 0} → H → String → String → TaskHandler W → L → TaskManager L H W
new_task_manager client agent_id server_url task_handler logger = record {
  agent_id = agent_id;
  server_url = server_url;
  logger = logger;
  http_client = client;
  task_handler = task_handler;
}

-- GetNextTask, from what the HTTP client returns; `none` is nil.
unfoldable pub get_next_task : Result Answer → Result (Option GeneralTask)
get_next_task (err e) = err (wrap "failed to fetch task" e)
get_next_task (ok a) =
    if eqb a.status 204
    then ok none
    else if eqb a.status 200
    then map_ok some
        (or_wrap "failed to decode task" (parse a.body >>= λ j. decode_task j zero_task))
    else err (new (Text.◌++◌ "unexpected status code: " (decimal a.status)))

-- GetNextTask as a whole
unfoldable pub fetch_next_task : HttpClient → String → String → Result (Option GeneralTask)
fetch_next_task http server_url agent_id =
    elim (http.new_request "GET" (Text.◌++◌ "http://" (Text.◌++◌ server_url "/tasks/next"))) [
      | err e ↦ err (wrap "failed to create request" e)
      | ok req ↦
          let q = http.add "agent_id" agent_id (http.query req) in
          get_next_task (http.do_request (http.set_raw_query (http.encode q) req))
    ]

-- The task that a tick sets
unfoldable pub fixed_task : String → GeneralTask
fixed_task uuid = record {
  id = uuid;
  name = "BootstrapPrimaryNodeTask";
  payload =
      "{\"cluster_nodes\":[\"10.0.0.1\",\"10.0.0.2\",\"10.0.0.3\"],\"node_address\":\"10.0.0.1\"}";
}

-- A tick of RunForever, with the identifier that is drawn: the variable that holds the fetched task
-- is set anew, and the errors are logged.
unfoldable pub tick : {W : Type 0} → String → Result Answer → TaskHandler W → W → W
tick uuid answer handler w =
    let fetched = get_next_task answer in let task = fixed_task uuid in (handler.handle task w).1

-- What RunForever waits for: a tick, with the identifier that is drawn and the answer of the server,
-- or the end of the context
pub data Event : Type 0 where
  ticked : String → Result Answer → Event
  context_done : Event

-- RunForever, which returns nil at the end of the context
unfoldable pub run_forever : {W : Type 0} → TaskHandler W → List Event → W → W
unfolding tick
run_forever handler [] w = w
run_forever handler (ticked uuid answer ∷ events) w =
    run_forever handler events (tick uuid answer handler w)
run_forever handler (context_done ∷ events) w = w
