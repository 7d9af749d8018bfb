-- ===== src/Agent/Manager/Failure.antt =====
-- internal/agent/mariadb/manager/manager.go: what a run leaves behind whose command cannot start.
use galera_k8s_operator.Base.{
  ◌≡◌, refl, Error, wrap, ◌+◌, true, false, inl, inr, none, arith, ok, err, Option-cases,
}
use galera_k8s_operator.Agent.Manager.{
  Manager, run_mariadb, finalize, wait_returns, Step, run, stop, end, exit, Reach, fresh, next,
}
use galera_k8s_operator.Agent.Manager.Safety.{
  IsValid, idle, run_lem, stop_cases, finalize_lem, finalize_nil, Reach-IsValid,
}

-- A step that panics is the end of a finalizer, so `started` is held after it.
Step-started : {m n : Manager} → Step m n → IsValid m → n.panicked ≡ true → n.started ≡ true
unfolding run_mariadb
Step-started (run m (err x) c h) v e =
    let (none_alive, not_running) = idle m h v in
    cc (rw (run_lem m (err x) not_running, run_mariadb) at e, c)
Step-started (run m (ok p) c h) v e =
    let (none_alive, not_running) = idle m h v in
    cc (rw (run_lem m (ok p) not_running, run_mariadb) at e, c)
Step-started (stop m c) v e = elim (stop_cases m v) [
  | inl f ↦ cc (rw f at e, c)
  | inr (p, f) ↦ cc (rw f at e, c)
]
Step-started (end m c f w) v e = elim (Option-cases m.proc) [
  | inr (p, g) ↦ cc (rw (finalize_lem m p g) at e, c)
  | inl g ↦ rw (finalize_nil m g) (ground (arith, v.one_finalizer))
]
Step-started (exit m p c) v e = cc (c, e)

panicked-started : {m : Manager} → Reach m → m.panicked ≡ true → m.started ≡ true
panicked-started fresh e = cc e
panicked-started (next r x) e = Step-started x (Reach-IsValid r) e

-- In every state that can be reached with `started` free and no process ever known, a run whose
-- command cannot be started ends with its error and leaves exactly one finalizer behind, while
-- `started` is held. That the finalizer goes on is a step that can happen at once, and it panics.
pub first_start_fails :
    {m : Manager} (e : Error)
    → Reach m
    → m.started ≡ false
    → m.proc ≡ none
    → let (result, n) = run_mariadb (err e) m in
      (result ≡ err (wrap "failed to start mariadb" e))
      × (n.finalizers ≡ 1)
      × (n.started ≡ true)
      × Step n (finalize n)
      × ((finalize n).panicked ≡ true)
unfolding run_mariadb wait_returns
first_start_fails {m} e r h p =
    let v = Reach-IsValid r in
    let (none_alive, not_running) = idle m h v in
    let n = record m { started = true; finalizers = m.finalizers + 1 } in
    let one : n.finalizers ≡ 1 = ground (arith, v.one_finalizer) in
    let calm : m.panicked ≡ false = ground (arith, panicked-started r) in
    rw (run_lem m (err e) not_running, run_mariadb)
      (
        refl,
        one,
        refl,
        end n calm (λ z. omega (arith, one, z)) (rw (p, wait_returns)),
        rw (finalize_nil n p),
      )
