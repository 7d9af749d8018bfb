-- ===== src/Agent/Manager/Safety.antt =====
-- internal/agent/mariadb/manager/manager.go: what holds in every state that can be reached.
use galera_k8s_operator.Base.{
  ℕ, ◌-◌, String, ◌≡◌, ◌≢◌, refl, ap, ◌∙◌, true, false, ◌⊎◌, inl, inr, [], ◌∷◌, none, some, ◌==◌,
  eq_iff, if◌then◌else◌, arith, Result, ok, err, Bool-cases, Option-cases,
}
use galera_k8s_operator.Agent.Manager.{
  Manager, new_manager, state_running, state_stopped, state_unknown, get_state, run_mariadb,
  stop_mariadb, finalize, without, wait_returns, Step, run, stop, end, exit, Reach, fresh, next,
}

-- `started` is held exactly while one finalizer waits; a running state has a process and is covered
-- by `started`; a process that is alive is the one that is known, and the state then says so.
pub record IsValid (m : Manager) : Type 0 where
  pub one_finalizer : m.finalizers ≡ (if m.started then 1 else 0)
  pub running_started : m.state ≡ state_running → m.started ≡ true
  pub running_proc : m.state ≡ state_running → m.proc ≢ none
  pub one_alive :
      (m.alive ≡ [])
      ⊎ ((p : ℕ) × (m.alive ≡ p ∷ []) × (m.proc ≡ some p) × (m.state ≡ state_running))

unknown-ne-running : ◌≢◌ {A = String} state_unknown state_running
unknown-ne-running = ground (arith, eq_iff state_unknown state_running)

stopped-ne-running : ◌≢◌ {A = String} state_stopped state_running
stopped-ne-running = ground (arith, eq_iff state_stopped state_running)

-- In a valid state where `started` is free, no process is alive and the state is not running.
pub idle :
    (m : Manager) → m.started ≡ false → IsValid m → (m.alive ≡ []) × (m.state ≢ state_running)
idle m h v = elim v.one_alive [
  | inl e ↦ (e, λ r. cc (v.running_started r, h))
  | inr (p, e, q, r) ↦ cc (v.running_started r, h)
]

IsValid-new : IsValid new_manager
IsValid-new = record {
  one_finalizer = refl;
  running_started = λ e. absurd (unknown-ne-running e);
  running_proc = λ e. absurd (unknown-ne-running e);
  one_alive = inl refl;
}

-- The test of a state that is not running
pub run_lem :
    (m : Manager) (start : Result ℕ) → m.state ≢ state_running → (m.state == state_running) ≡ false
run_lem m start h = ground (arith, eq_iff m.state state_running)

run-IsValid :
    (m : Manager) (start : Result ℕ)
    → m.started ≡ false
    → IsValid m
    → IsValid (run_mariadb start m).1
unfolding run_mariadb
run-IsValid m (err e) h v =
    let (none_alive, not_running) = idle m h v in
    rw (run_lem m (err e) not_running, run_mariadb)
      (record {
        one_finalizer = ground (arith, v.one_finalizer);
        running_started = λ r. refl;
        running_proc = v.running_proc;
        one_alive = v.one_alive;
      })
run-IsValid m (ok p) h v =
    let (none_alive, not_running) = idle m h v in
    rw (run_lem m (ok p) not_running, run_mariadb)
      (record {
        one_finalizer = ground (arith, v.one_finalizer);
        running_started = λ r. refl;
        running_proc = λ r e. cc e;
        one_alive = inr (p, ap (λ l. p ∷ l) none_alive, refl, refl);
      })

pub stop_cases :
    (m : Manager)
    → IsValid m
    → ((stop_mariadb m).1 ≡ m)
      ⊎ ((p : ℕ) × ((stop_mariadb m).1 ≡ record m { signalled = p ∷ m.signalled }))
unfolding stop_mariadb
stop_cases m v = elim (Bool-cases (m.state == state_running)) [
  | inr f ↦ inl (ground arith)
  | inl t ↦ elim (Option-cases m.proc) [
    | inl e ↦ absurd (v.running_proc ((eq_iff _ _).0 t) e)
    | inr (p, e) ↦ inr (p, ground arith)
  ]
]

stop-IsValid : (m : Manager) → IsValid m → IsValid (stop_mariadb m).1
stop-IsValid m v = elim (stop_cases m v) [
  | inl e ↦ rw e v
  | inr (p, e) ↦ rw e (record {
    one_finalizer = v.one_finalizer;
    running_started = v.running_started;
    running_proc = v.running_proc;
    one_alive = v.one_alive;
  })
]

-- A finalizer goes on only when no process is alive.
pub wait_alone :
    (m : Manager) (p : ℕ) → IsValid m → m.proc ≡ some p → wait_returns m ≡ true → m.alive ≡ []
unfolding wait_returns
wait_alone m p v e w = elim v.one_alive [ inl f ↦ f | inr (q, f, g, r) ↦ ground arith ]

pub finalize_lem :
    (m : Manager) (p : ℕ)
    → m.proc ≡ some p
    → finalize m
      ≡ record m { pid = 0; state = state_stopped; started = false; finalizers = m.finalizers - 1 }
unfolding finalize
finalize_lem m p e = ground arith

pub finalize_nil : (m : Manager) → m.proc ≡ none → finalize m ≡ record m { panicked = true }
unfolding finalize
finalize_nil m e = ground arith

end-IsValid :
    (m : Manager) → IsValid m → m.finalizers ≢ 0 → wait_returns m ≡ true → IsValid (finalize m)
end-IsValid m v f w = elim (Option-cases m.proc) [
  | inl e ↦ rw (finalize_nil m e) (record {
    one_finalizer = v.one_finalizer;
    running_started = v.running_started;
    running_proc = v.running_proc;
    one_alive = v.one_alive;
  })
  | inr (p, e) ↦ rw (finalize_lem m p e) (record {
    one_finalizer = ground (arith, v.one_finalizer);
    running_started = λ r. absurd (stopped-ne-running r);
    running_proc = λ r. absurd (stopped-ne-running r);
    one_alive = inl (wait_alone m p v e w);
  })
]

without_one : (p q : ℕ) → (without p (q ∷ []) ≡ []) ⊎ (without p (q ∷ []) ≡ q ∷ [])
unfolding without
without_one p q = ground arith

exit_alive :
    (m : Manager) (p : ℕ)
    → IsValid m
    → (without p m.alive ≡ [])
      ⊎ ((q : ℕ) × (without p m.alive ≡ q ∷ []) × (m.proc ≡ some q) × (m.state ≡ state_running))
unfolding without
exit_alive m p v = elim v.one_alive [
  | inl e ↦ inl (ap (without p) e)
  | inr (q, e, f, g) ↦ elim (without_one p q) [
    | inl h ↦ inl (ap (without p) e ∙ h)
    | inr h ↦ inr (q, ap (without p) e ∙ h, f, g)
  ]
]

Step-IsValid : {m n : Manager} → Step m n → IsValid m → IsValid n
Step-IsValid (run m start c h) v = run-IsValid m start h v
Step-IsValid (stop m c) v = stop-IsValid m v
Step-IsValid (end m c f w) v = end-IsValid m v f w
Step-IsValid (exit m p c) v = record {
  one_finalizer = v.one_finalizer;
  running_started = v.running_started;
  running_proc = v.running_proc;
  one_alive = exit_alive m p v;
}

-- Every state that the methods, the finalizers and the exits of processes lead to is valid.
pub Reach-IsValid : {m : Manager} → Reach m → IsValid m
Reach-IsValid fresh = IsValid-new
Reach-IsValid (next r st) = Step-IsValid st (Reach-IsValid r)

-- In every state that can be reached at most one process is alive; while one is, `started` is held
-- and GetState says that MariaDB runs.
pub one_process :
    {m : Manager}
    → Reach m
    → (m.alive ≡ [])
      ⊎ ((p : ℕ) × (m.alive ≡ p ∷ []) × (m.started ≡ true) × (get_state m ≡ state_running))
unfolding get_state
one_process r =
    let v = Reach-IsValid r in
    elim v.one_alive [ inl e ↦ inl e | inr (p, e, f, g) ↦ inr (p, e, v.running_started g, g) ]

-- In every state that can be reached, a call of RunMariaDB that gets the lock and whose command
-- starts leaves the new process as the only one alive, known and running: no earlier process is
-- left, and the early return for a state that is running is never taken.
pub run_starts :
    {m : Manager} (p : ℕ)
    → Reach m
    → m.started ≡ false
    → let (r, n) = run_mariadb (ok p) m in
      (r ≡ ok tt) × (n.alive ≡ p ∷ []) × (n.proc ≡ some p) × (n.state ≡ state_running)
unfolding run_mariadb
run_starts {m} p r h =
    let v = Reach-IsValid r in
    let (none_alive, not_running) = idle m h v in
    rw (run_lem m (ok p) not_running, run_mariadb) (refl, ap (λ l. p ∷ l) none_alive, refl, refl)

-- In every state that can be reached with a known process for which a wait returns, no process is
-- alive, and the finalizer sets the state to stopped and frees `started`.
pub finalize_alone :
    {m : Manager}
    → Reach m
    → m.proc ≢ none
    → wait_returns m ≡ true
    → (m.alive ≡ []) × ((finalize m).state ≡ state_stopped) × ((finalize m).started ≡ false)
finalize_alone {m} r p w = elim (Option-cases m.proc) [
  | inl e ↦ absurd (p e)
  | inr (q, e) ↦
      (wait_alone m q (Reach-IsValid r) e w, rw (finalize_lem m q e), rw (finalize_lem m q e))
]
