-- ===== src/Tests/Tasks.antt =====
-- The bootstrap task at concrete values.
use Prim.Native.String
use text.Mathlib.TextLemmas.{append-eq-nil_iff}
use galera_k8s_operator.Base.{
  String, ◌≡◌, ◌≢◌, refl, [], ◌∷◌, none, some, ok, Result, arith, eq_iff, ◌>>=◌, false,
}
use galera_k8s_operator.Json.{Json, junk, str, object, arr, elem, nil, decode_slice}
use galera_k8s_operator.Entities.Agent.{GeneralTask}
use galera_k8s_operator.Agent.Manager.{Manager, new_manager, run_mariadb, stop_mariadb}
use galera_k8s_operator.Agent.Galera.{Env, configure_with, rewrite}
use galera_k8s_operator.Agent.Reconciler.{MariadbManager, World}
use galera_k8s_operator.Agent.StateManager.{Answer}
use galera_k8s_operator.Agent.TaskManager.{fixed_task, tick}
use galera_k8s_operator.Agent.TaskManager.Laws.{task_handler, ticks_settle}
use galera_k8s_operator.Agent.BootstrapTask.{
  BootstrapPrimaryPayload, decode_payload, configure_payload, restart_as_first, execute_payload,
  execute,
}

abbrev marked : String → String
marked t = String.◌++◌ "#" t

mark : ◌≢◌ {A = String} "#" ""
mark = ground (arith, eq_iff "#" "")

marked_text : (t : String) → marked t ≢ ""
marked_text t e = mark (append-eq-nil_iff.0 e).0

abbrev host : Env
host = record {
  current_ip = ok "10.0.0.1";
  read_error = none;
  write_error = none;
  touch_error = none;
}

abbrev processes : MariadbManager
processes = record { M = Manager; run = λ b m. run_mariadb (ok 7) m; stop = stop_mariadb }

abbrev fresh_world : World Manager
fresh_world = record { conf = none; prepared = false; manager = new_manager }

abbrev payload_json : Json
payload_json =
    object
      (("cluster_nodes", arr (elem (str "10.0.0.2") nil)) ∷ ("node_address", str "10.0.0.1") ∷ [])

-- A parser that reads every text as one payload.
abbrev one_payload : String → Result Json
one_payload t = ok payload_json

abbrev task : GeneralTask
task = record { id = "1"; name = "BootstrapPrimaryNodeTask"; payload = "{}" }

abbrev payload : BootstrapPrimaryPayload
payload = record { cluster_nodes = some ("10.0.0.2" ∷ []); node_address = "10.0.0.1" }

payload_read : (one_payload task.payload >>= decode_payload) ≡ ok payload
unfolding decode_payload decode_slice
payload_read = refl

abbrev not_found : Answer
not_found = record { status = 404; body = junk "Target state not found" }

fixed_executed : (execute marked one_payload processes host (fixed_task "a") fresh_world).0 ≡ ok tt
unfolding execute execute_payload configure_payload configure_with rewrite restart_as_first
    decode_payload decode_slice run_mariadb stop_mariadb
fixed_executed = refl

ticks_settle_example :
    let w' = tick "a" (ok not_found) (task_handler marked one_payload processes host) fresh_world in
    tick "b" (ok not_found) (task_handler marked one_payload processes host) w' ≡ w'
ticks_settle_example =
    ticks_settle marked one_payload processes marked_text "a" "b" (ok not_found) (ok not_found) host
      host payload "10.0.0.1" fresh_world payload_read refl refl refl fixed_executed
