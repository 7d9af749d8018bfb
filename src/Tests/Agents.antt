-- ===== src/Tests/Agents.antt =====
-- The agent at concrete values.
use Prim.Native.String
use text.Mathlib.TextLemmas.{append-eq-nil_iff}
use galera_k8s_operator.Base.{
  ℤ, String, ◌≡◌, ◌≢◌, refl, ap, true, [], ◌∷◌, none, some, Result, ok, err, new, arith, eq_iff,
  json_error, ℕ, ◌⊎◌, Error, wrap, false, IsInt64,
}
use galera_k8s_operator.Entities.Agent.{
  State, TargetState, zero_state, zero_target_state, zero_heartbeat, zero_galera,
}
use galera_k8s_operator.Agent.Manager.{
  Manager, new_manager, run_mariadb, stop_mariadb, finalize, wait_returns, get_state, state_running,
  state_stopped, Step, Reach, fresh, next, run, exit, without,
}
use galera_k8s_operator.Agent.Manager.Safety.{one_process}
use galera_k8s_operator.Agent.Manager.Failure.{first_start_fails}
use galera_k8s_operator.Agent.Galera.Laws.{configure_settles}
use galera_k8s_operator.Agent.Galera.{Env, render, configure_galera, rewrite, configure_with}
use galera_k8s_operator.Agent.Reconciler.{MariadbManager, World, role_primary, reconcile}
use galera_k8s_operator.Agent.Reconciler.Laws.{IsSettled}
use galera_k8s_operator.Agent.HbCollector.{Sight, HbCollector, seen, collect, collect_once}
use galera_k8s_operator.Agent.HbCollector.Laws.{collect_once_kept, stale_report_restarts}
use galera_k8s_operator.Tests.Data.{two_times}

-- A command that started.
abbrev started : Manager
started = (run_mariadb (ok 7) new_manager).1

-- The process has exited.
abbrev exited : Manager
exited = record started { alive = without 7 started.alive }

started-Reach : Reach started
started-Reach = next fresh (run new_manager (ok 7) refl refl)

exited-Reach : Reach exited
unfolding run_mariadb
exited-Reach = next started-Reach (exit started 7 refl)

one_process_example :
    (started.alive ≡ [])
    ⊎ ((p : ℕ) × (started.alive ≡ p ∷ [])
        × (started.started ≡ true)
        × (get_state started ≡ state_running))
one_process_example = one_process started-Reach

exited_known : exited.proc ≢ none
unfolding run_mariadb
exited_known e = cc e

exited_waits : wait_returns exited ≡ true
unfolding run_mariadb wait_returns without
exited_waits = refl

first_start_fails_example :
    let (result, n) = run_mariadb (err json_error) new_manager in
    (result ≡ err (wrap "failed to start mariadb" json_error))
    × (n.finalizers ≡ 1)
    × (n.started ≡ true)
    × Step n (finalize n)
    × ((finalize n).panicked ≡ true)
first_start_fails_example = first_start_fails json_error fresh refl refl

-- A hash that tells every two texts apart.
abbrev marked : String → String
marked t = String.◌++◌ "#" t

mark : ◌≢◌ {A = String} "#" ""
mark = ground (arith, eq_iff "#" "")

marked_text : (t : String) → marked t ≢ ""
marked_text t e = mark (append-eq-nil_iff.0 e).0

abbrev host : Env
host = record {
  current_ip = ok "10.0.0.1";
  read_error = none;
  write_error = none;
  touch_error = none;
}

abbrev wanted : TargetState
wanted = record zero_target_state {
  galera_new_cluster = true;
  node_role = role_primary;
  galera = record zero_galera { incoming_addresses = some ("10.0.0.2" ∷ []) };
}

abbrev text_of_conf : String
text_of_conf = render ("10.0.0.2" ∷ []) "10.0.0.1"

first_configured : configure_galera marked host wanted none ≡ (ok true, some text_of_conf)
unfolding configure_galera configure_with rewrite
first_configured = refl

-- The manager of this development, each of whose commands starts as the process 7.
abbrev processes : MariadbManager
processes = record { M = Manager; run = λ b m. run_mariadb (ok 7) m; stop = stop_mariadb }

abbrev world : World Manager
world = record { conf = some text_of_conf; prepared = true; manager = started }

world-IsSettled : IsSettled marked marked_text processes host wanted world
world-IsSettled = record {
  ip = "10.0.0.1";
  old = text_of_conf;
  at_ip = refl;
  readable = refl;
  touchable = refl;
  there = refl;
  wanted = refl;
}

abbrev running_report : State
running_report = record zero_state {
  heartbeat = record zero_heartbeat { mariadb_status = state_running };
}

abbrev no_number : String → Result ℤ
no_number s = err (new "invalid syntax")

no_number_fits : (s : String) (i : ℤ) → no_number s ≡ ok i → IsInt64 i
no_number_fits s i e = cc e

abbrev sight : Sight
sight = record { current_ip = ok "10.0.0.1"; flag_exists = true; rows = err (new "no socket") }

abbrev collector : HbCollector
collector = record { name = "node-1"; version = "1"; last_state = none }

kept_report :
    (collect_once no_number state_running sight
      (collect no_number state_stopped sight collector).1).0
    ≡ some (seen no_number collector state_stopped sight)
kept_report =
    ap (λ p. p.0)
      (collect_once_kept no_number no_number_fits state_stopped state_running sight sight collector)

stopped-ne-running : ◌≢◌ {A = String} state_stopped state_running
stopped-ne-running = ground (arith, eq_iff state_stopped state_running)

stale_report_restarts_example :
    let after =
      reconcile marked processes host
        (some wanted)
        (ok (seen no_number collector state_stopped sight))
        world in
    let (stopped, m) = stop_mariadb started in
    let (ran, m') = run_mariadb (ok 7) m in
    ((x : Error) × (stopped ≡ err x)
      × (after ≡ (err (wrap "failed to stop mariadb" x), record world { manager = m })))
    ⊎ ((x : Error) × (stopped ≡ ok tt)
        × (ran ≡ err x)
        × (after ≡ (err (wrap "failed to run mariadb" x), record world { manager = m' })))
    ⊎ ((stopped ≡ ok tt)
        × (ran ≡ ok tt)
        × (after ≡ (ok tt, record world { manager = m'; prepared = true })))
stale_report_restarts_example =
    stale_report_restarts no_number no_number_fits marked marked_text processes state_stopped
      state_running sight sight collector host wanted world
      (seen no_number collector state_stopped sight) world-IsSettled refl refl stopped-ne-running
      kept_report

configure_settles_example :
    configure_galera marked host wanted (some text_of_conf) ≡ (ok false, some text_of_conf)
configure_settles_example =
    configure_settles marked marked_text host host wanted "10.0.0.1" none (some text_of_conf) true
      refl refl refl first_configured
