-- ===== src/Agent/TaskManager/Laws.antt =====
-- What a tick of the task manager does, and that a task survives its JSON.
use galera_k8s_operator.Base.{String, ◌≡◌, ◌≢◌, ◌∙◌, ap, none, ◌>>=◌, refl, Result, ok}
use galera_k8s_operator.Json.{Json}
use galera_k8s_operator.Entities.Agent.{GeneralTask}
use galera_k8s_operator.Entities.AgentJson.{encode_task, decode_task}
use galera_k8s_operator.Json.{RawMessage, decode_struct, decode_string, is_key}
use galera_k8s_operator.Json.Bounds.{ok-injective}
use galera_k8s_operator.Agent.StateManager.{Answer}
use galera_k8s_operator.Agent.Galera.{Env}
use galera_k8s_operator.Agent.Reconciler.{MariadbManager, World}
use galera_k8s_operator.Agent.BootstrapTask.{
  BootstrapPrimaryPayload, decode_payload, execute, handle,
}
use galera_k8s_operator.Agent.BootstrapTask.Laws.{handle_settles}
use galera_k8s_operator.Agent.TaskManager.{to_json, from_json, TaskHandler, fixed_task, tick}

-- A task read from its own JSON, into any task, is that task.
pub from_json-to_json :
    (g old : GeneralTask) (text : RawMessage) → to_json g ≡ ok text → from_json text old ≡ ok g
unfolding to_json from_json decode_struct decode_task encode_task decode_string is_key
from_json-to_json g old text e = rw (← ok-injective e) refl

module _ (hash : String → String) (parse_text : String → Result Json) (mdb : MariadbManager) where
  open mdb use {M}

  -- The handler of internal/agent/task-handler at a host
  abbrev pub task_handler : Env → TaskHandler (World M)
  task_handler env = record { handle = handle hash parse_text mdb env }

  -- Whatever the server answers, and whether it answers at all, a tick with the agent's own handler
  -- executes the fixed task of bootstrap, and its identifier plays no part.
  pub tick_fixed :
      (uuid uuid' : String) (answer answer' : Result Answer) (env : Env) (w : World M)
      → (tick uuid answer (task_handler env) w
          ≡ (execute hash parse_text mdb env (fixed_task uuid) w).1)
        × (tick uuid answer (task_handler env) w ≡ tick uuid' answer' (task_handler env) w)
  unfolding tick handle execute fixed_task
  tick_fixed uuid uuid' answer answer' env w = (refl, refl)

  -- Where the agent's handler executed the fixed task without error at a tick, at a known address, a
  -- later tick at the same address, with the file of Galera readable, changes nothing, whatever
  -- the server answers at either tick.
  pub ticks_settle :
      (hash_text : (t : String) → hash t ≢ "") (uuid uuid' : String)
      (answer answer' : Result Answer) (env env' : Env) (pl : BootstrapPrimaryPayload) (ip : String)
      (w : World M)
      → (parse_text (fixed_task uuid).payload >>= decode_payload) ≡ ok pl
      → env.current_ip ≡ ok ip
      → env'.current_ip ≡ ok ip
      → env'.read_error ≡ none
      → (execute hash parse_text mdb env (fixed_task uuid) w).0 ≡ ok tt
      → let w' = tick uuid answer (task_handler env) w in
        tick uuid' answer' (task_handler env') w' ≡ w'
  unfolding tick
  ticks_settle hash_text uuid uuid' answer answer' env env' pl ip w p a a' r h =
      let w' = tick uuid answer (task_handler env) w in
      (tick_fixed uuid' uuid answer' answer env' w').1
      ∙ ap (λ x. x.1)
          (handle_settles hash hash_text parse_text mdb env env' (fixed_task uuid) pl ip w
            (unfold fixed_task in refl) p a a' r h)
