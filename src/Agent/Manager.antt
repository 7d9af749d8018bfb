-- ===== src/Agent/Manager.antt =====
-- internal/agent/mariadb/manager/manager.go: the process of MariaDB, the state that is kept of it,
-- and the two locks. `mu` makes each method body one step. `started` is taken by RunMariaDB and
-- given back by the goroutine `finalize` that it leaves behind, so it spans steps.
pub mod Safety
pub mod Failure
use galera_k8s_operator.Base.{
  ℕ, suc, ◌+◌, ◌-◌, String, ◌≡◌, ◌≢◌, Bool, true, false, List, [], ◌∷◌, ◌++◌, Option, none, some,
  ◌==◌, eqb, if◌then◌else◌, apply_options, Error, new, wrap, Result, ok, err,
}

abbrev pub state_running : String
state_running = "running"

abbrev pub state_stopped : String
state_stopped = "stopped"

abbrev pub state_unknown : String
state_unknown = "unknown"

-- `alive` holds the processes that were started and have not exited, `signalled` those that were
-- told to end, and `finalizers` counts the goroutines of `finalize` that wait.
pub record Manager : Type 0 where
  pub state : String
  pub pid : ℕ
  pub proc : Option ℕ
  pub started : Bool
  pub finalizers : ℕ
  pub alive : List ℕ
  pub signalled : List ℕ
  pub panicked : Bool

abbrev pub new_manager : Manager
new_manager = record {
  state = state_unknown;
  pid = 0;
  proc = none;
  started = false;
  finalizers = 0;
  alive = [];
  signalled = [];
  panicked = false;
}

-- RunOptions of internal/agent/entities/entities.go
pub record RunOptions : Type 0 where
  pub galera_new_cluster : Bool

unfoldable pub with_galera_new_cluster : RunOptions → RunOptions
with_galera_new_cluster opt = record opt { galera_new_cluster = true }

-- The arguments of the command, after the name of the program, by the options of the call
unfoldable pub command_args : List (RunOptions → RunOptions) → List String
unfolding apply_options
command_args opts =
    let run_opts = apply_options opts (record { galera_new_cluster = false }) in
    "mariadbd" ∷ (if run_opts.galera_new_cluster then "--wsrep-new-cluster" ∷ [] else [])

-- RunMariaDB from where it holds both locks to its return, with the deferred start of `finalize`.
-- `start` is what cmd.Start comes to: the process, or an error.
unfoldable pub run_mariadb : Result ℕ → Manager → Result (Unit {0}) × Manager
run_mariadb start m =
    let held = record m { started = true; finalizers = m.finalizers + 1 } in
    if m.state == state_running then (ok tt, held) else elim start [
      | err e ↦ (err (wrap "failed to start mariadb" e), held)
      | ok p ↦ (
        ok tt,
        record held { proc = some p; state = state_running; pid = p; alive = p ∷ m.alive },
      )
    ]

-- GetState
unfoldable pub get_state : Manager → String
get_state m = m.state

-- StopMariaDB: SIGTERM, or SIGKILL if that cannot be sent; it does not wait for the exit.
unfoldable pub stop_mariadb : Manager → Result (Unit {0}) × Manager
stop_mariadb m =
    if m.state == state_running
    then elim m.proc [
      | none ↦ (ok tt, record m { panicked = true })
      | some p ↦ (ok tt, record m { signalled = p ∷ m.signalled })
    ]
    else (ok tt, m)

-- `finalize` from where Wait returns to its end. Wait on a process that is nil panics.
unfoldable pub finalize : Manager → Manager
finalize m = elim m.proc [
  | none ↦ record m { panicked = true }
  | some p ↦ record m {
    pid = 0;
    state = state_stopped;
    started = false;
    finalizers = m.finalizers - 1;
  }
]

unfoldable pub without : ℕ → List ℕ → List ℕ
without p [] = []
without p (q ∷ l) = let rest = without p l in if eqb p q then rest else q ∷ rest

abbrev pub is_alive : ℕ → List ℕ → Bool
is_alive p [] = false
is_alive p (q ∷ l) = if eqb p q then true else is_alive p l

-- Whether Wait on `m.proc` returns: a process that is nil, or one that has exited.
unfoldable pub wait_returns : Manager → Bool
wait_returns m = elim m.proc [ none ↦ true | some p ↦ if is_alive p m.alive then false else true ]

-- What can happen next: a call of a method, a finalizer, or the exit of a process. A call of
-- RunMariaDB waits until `started` is free. Nothing happens after a panic.
pub data Step : Manager → Manager → Type 0 where
  run :
      (m : Manager) (start : Result ℕ)
      → m.panicked ≡ false
      → m.started ≡ false
      → Step m (run_mariadb start m).1
  stop : (m : Manager) → m.panicked ≡ false → Step m (stop_mariadb m).1
  end :
      (m : Manager)
      → m.panicked ≡ false
      → m.finalizers ≢ 0
      → wait_returns m ≡ true
      → Step m (finalize m)
  exit :
      (m : Manager) (p : ℕ) → m.panicked ≡ false → Step m (record m { alive = without p m.alive })

pub data Reach : Manager → Type 0 where
  fresh : Reach new_manager
  next : {m n : Manager} → Reach m → Step m n → Reach n
