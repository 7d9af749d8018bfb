-- ===== src/ControllerManager/Progress.antt =====
-- One iteration of a controller: how many goroutines it runs, what it looks at, and that it ends.
use galera_k8s_operator.Base.{
  ℕ, ◌+◌, ◌*◌, ◌<◌, ◌≤◌, ◌≡◌, refl, ap, ◌⊎◌, inl, inr, List, [], ◌∷◌, ◌++◌, Option, none, some,
  length, ok, arith, Option-cases,
}
use galera_k8s_operator.Json.Bounds.{ok-injective}
use mathlib.Core.List.{Perm, perm_middle, append-nil}
use mathlib.Core.List.Perm
use galera_k8s_operator.ControllerManager.{
  limit, Iteration, begin_iteration, Step, admit, cancel, start, finish, Run, begun, later,
}

module _ {A : Type 0} where
  pub length-middle : (a : List A) (r : A) (b : List A) → length (a ++ r ∷ b) ≡ 1 + length (a ++ b)
  length-middle [] r b = omega arith
  length-middle (x ∷ a) r b = omega (arith, length-middle a r b)

  abbrev pub waiting : Option A → List A
  waiting none = []
  waiting (some r) = r ∷ []

  fresh_iteration : List A → Iteration A
  fresh_iteration l = record {
    pending = l;
    admitted = none;
    running = [];
    finished = [];
    left_out = [];
  }

  begun_lem : (l : List A) (s : Iteration A) → begin_iteration (ok l) ≡ ok s → fresh_iteration l ≡ s
  unfolding begin_iteration fresh_iteration
  begun_lem l s e = ok-injective e

  pub step_bounded :
      (s t : Iteration A) → Step s t → length s.running ≤ limit → length t.running ≤ limit
  step_bounded s t (admit r rest e f) h = h
  step_bounded s t (cancel r rest e f) h = h
  step_bounded s t (start r e f) h = omega arith
  step_bounded s t (finish a r b e) h = omega (arith, length-middle a r b, ap length e)

  -- However the goroutines are scheduled, at most 20 goroutines of one iteration run at a time.
  pub iteration_bounded : (l : List A) (n : ℕ) (s : Iteration A) → Run l n s → length s.running ≤ 20
  unfolding fresh_iteration
  iteration_bounded l n s (begun s' e) = rw (← begun_lem l s e) (omega arith)
  iteration_bounded l n t (later {n = m} {s} r x) = step_bounded s t x (iteration_bounded l m s r)

  abbrev work : Iteration A → ℕ
  work s = 3 * length s.pending + 2 * length (waiting s.admitted) + length s.running

  step_works : (s t : Iteration A) → Step s t → work t < work s
  step_works s t (admit r rest e f) = rw (e, f) (omega arith)
  step_works s t (cancel r rest e f) = rw (e, f) (omega arith)
  step_works s t (start r e f) = rw e (omega arith)
  step_works s t (finish a r b e) = omega (arith, length-middle a r b, ap length e)

  Run-works : (l : List A) (n : ℕ) (s : Iteration A) → Run l n s → n + work s ≤ 3 * length l
  unfolding fresh_iteration
  Run-works l n s (begun s' e) = rw (← begun_lem l s e) (omega arith)
  Run-works l n t (later {n = m} {s} r x) = omega (arith, step_works s t x, Run-works l m s r)

  -- Nothing is left to look at, and nothing runs.
  pub record IsOver (s : Iteration A) : Type 0 where
    pub none_pending : s.pending ≡ []
    pub none_admitted : s.admitted ≡ none
    pub none_running : s.running ≡ []

  IsOver-or_finish :
      (s : Iteration A) (l : List A)
      → s.running ≡ l
      → s.pending ≡ []
      → s.admitted ≡ none
      → IsOver s ⊎ ((t : Iteration A) × Step s t)
  IsOver-or_finish s [] e f g =
      inl (record { none_pending = f; none_admitted = g; none_running = e })
  IsOver-or_finish s (r ∷ b) e f g = inr (_, finish [] r b e)

  look :
      (s : Iteration A) (l : List A)
      → s.pending ≡ l
      → s.admitted ≡ none
      → IsOver s ⊎ ((t : Iteration A) × Step s t)
  look s [] e f = IsOver-or_finish s s.running refl e f
  look s (r ∷ rest) e f = inr (_, admit r rest e f)

  crowded :
      (s : Iteration A) (r : A) (l : List A)
      → s.admitted ≡ some r
      → s.running ≡ l
      → (t : Iteration A) × Step s t
  crowded s r [] e f = (_, start r e (rw f (omega arith)))
  crowded s r (x ∷ b) e f = (_, finish [] x b f)

  goes_on : (s : Iteration A) → IsOver s ⊎ ((t : Iteration A) × Step s t)
  goes_on s = elim (Option-cases s.admitted) [
    | inl e ↦ look s s.pending refl e
    | inr (r, e) ↦ inr (crowded s r s.running e refl)
  ]

  -- An iteration over `l` ends after at most three steps for each resource, in every order, if no
  -- goroutine runs for ever: no run is longer, and a run that is not over can go on.
  pub iteration_ends :
      (l : List A) (n : ℕ) (s : Iteration A)
      → Run l n s
      → (n ≤ 3 * length l) × (IsOver s ⊎ ((t : Iteration A) × Step s t))
  iteration_ends l n s r = (omega (arith, Run-works l n s r), goes_on s)

  -- All that an iteration has to do with.
  abbrev pub resources_of : Iteration A → List A
  resources_of s = s.finished ++ (s.running ++ (waiting s.admitted ++ (s.pending ++ s.left_out)))

  step_kept : (s t : Iteration A) → Step s t → Perm (resources_of t) (resources_of s)
  step_kept s t (admit r rest e f) =
      rw (e, f) (Perm.refl (s.finished ++ (s.running ++ r ∷ (rest ++ s.left_out))))
  step_kept s t (cancel r rest e f) =
      rw (e, f) (Perm.refl (s.finished ++ (s.running ++ r ∷ (rest ++ s.left_out))))
  step_kept s t (start r e f) =
      rw e
        (Perm.append_left s.finished (Perm.symm (perm_middle s.running (s.pending ++ s.left_out))))
  step_kept s t (finish a r b e) =
      let others = waiting s.admitted ++ (s.pending ++ s.left_out) in
      rw e (
        Perm.symm (
          Perm.trans (Perm.append_left s.finished (Perm.append_right others (perm_middle a b)))
            (perm_middle s.finished ((a ++ b) ++ others))))

  -- At every moment the resources that are done, that run, that wait, that are left to look at and
  -- that were left out are those that were listed, each as often as it was listed.
  pub iteration_kept : (l : List A) (n : ℕ) (s : Iteration A) → Run l n s → Perm (resources_of s) l
  unfolding fresh_iteration
  iteration_kept l n s (begun s' e) = rw (← begun_lem l s e, append-nil l) (Perm.refl l)
  iteration_kept l n t (later {n = m} {s} r x) =
      Perm.trans (step_kept s t x) (iteration_kept l m s r)
