-- ===== src/ControllerManager.antt =====
-- internal/controller-manager/controller_manager.go: the registered controllers, and one iteration
-- over the resources of a controller. A controller, a storage and a logger are types of the section.
pub mod Progress
use galera_k8s_operator.Base.{
  ℕ, String, apply_options, ◌+◌, ◌<◌, ◌≡◌, List, [], ◌∷◌, ◌++◌, Option, none, some, length, Table,
  assign, Error, Result, ok, err,
}

pub record ControllerManagerOptions (S L : Type 0) : Type 0 where
  pub storage : Option S
  pub logger : Option L

pub record ControllerManager (S L C : Type 0) : Type 0 where
  pub controllers : Table C
  pub logger : Option L
  pub storage : Option S

module _ {S L : Type 0} where
  unfoldable pub with_storage : S → ControllerManagerOptions S L → ControllerManagerOptions S L
  with_storage storage o = record o { storage = some storage }

  unfoldable pub with_logger : L → ControllerManagerOptions S L → ControllerManagerOptions S L
  with_logger l o = record o { logger = some l }

module _ {S L C : Type 0} where
  -- NewControllerManager
  unfoldable pub new_controller_manager :
      List (ControllerManagerOptions S L → ControllerManagerOptions S L) → ControllerManager S L C
  unfolding apply_options
  new_controller_manager opts =
      let params = apply_options opts (record { storage = none; logger = none }) in
      record { controllers = []; logger = params.logger; storage = params.storage }

  unfoldable pub register_controller :
      String → C → ControllerManager S L C → ControllerManager S L C
  register_controller name controller c = record c {
    controllers = assign name controller c.controllers;
  }

-- The capacity of the limiter
abbrev pub limit : ℕ
limit = 20

-- doIteration, with the resources that are left to look at, the one that waits for the limiter,
-- those whose goroutine runs, those whose goroutine has ended, and those that were left out.
pub record Iteration (A : Type 0) : Type 0 where
  pub pending : List A
  pub admitted : Option A
  pub running : List A
  pub finished : List A
  pub left_out : List A

-- GetResources is called first, and its error ends the iteration.
unfoldable pub begin_iteration : {A : Type 0} → Result (List A) → Result (Iteration A)
begin_iteration (err e) = err e
begin_iteration (ok resources) =
    ok (record { pending = resources; admitted = none; running = []; finished = []; left_out = [] })

-- What runController waits for: a tick, with what GetResources returns then, or the end of the context
pub data Event (A : Type 0) : Type 0 where
  ticked : Result (List A) → Event A
  context_done : Event A

-- runController: the iterations that it begins, in order; their errors are logged and no more.
unfoldable pub run_controller : {A : Type 0} → List (Event A) → List (Result (Iteration A))
unfolding begin_iteration
run_controller [] = []
run_controller (ticked answer ∷ events) = begin_iteration answer ∷ run_controller events
run_controller (context_done ∷ events) = []

-- What runController returns: the error of the context when that has ended, and nothing before
unfoldable pub controller_end : {A : Type 0} → Error → List (Event A) → Option Error
controller_end context_error [] = none
controller_end context_error (ticked answer ∷ events) = controller_end context_error events
controller_end context_error (context_done ∷ events) = some context_error

unfoldable pub fatal_controllers :
    {C A : Type 0} → Error → (String → C → List (Event A)) → Table C → List String
unfolding controller_end
fatal_controllers context_error events [] = []
fatal_controllers context_error events ((name, ctrl) ∷ controllers) =
    let rest = fatal_controllers context_error events controllers in
    elim (controller_end context_error (events name ctrl)) [ none ↦ rest | some e ↦ name ∷ rest ]

-- Run starts every controller that is registered, each with its own ticker; these are the names of
-- those for which Fatal is called.
unfoldable pub run_manager :
    {S L C A : Type 0}
    → Error
    → (String → C → List (Event A))
    → ControllerManager S L C
    → List String
unfolding fatal_controllers
run_manager context_error events c = fatal_controllers context_error events c.controllers

module _ {A : Type 0} where
  -- The loop's test of the context, its wait for the limiter, and the end of a goroutine.
  pub data Step (s : Iteration A) : Iteration A → Type 0 where
    admit :
        (r : A) (rest : List A)
        → s.pending ≡ r ∷ rest
        → s.admitted ≡ none
        → Step s (record s { pending = rest; admitted = some r })
    cancel :
        (r : A) (rest : List A)
        → s.pending ≡ r ∷ rest
        → s.admitted ≡ none
        → Step s (record s { pending = []; left_out = r ∷ rest ++ s.left_out })
    start :
        (r : A)
        → s.admitted ≡ some r
        → length s.running < limit
        → Step s (record s { admitted = none; running = r ∷ s.running })
    finish :
        (a : List A) (r : A) (b : List A)
        → s.running ≡ a ++ r ∷ b
        → Step s (record s { running = a ++ b; finished = r ∷ s.finished })

  -- What `n` steps lead to.
  pub data Run (resources : List A) : ℕ → Iteration A → Type 0 where
    begun : (s : Iteration A) → begin_iteration (ok resources) ≡ ok s → Run resources 0 s
    later : {n : ℕ} {s t : Iteration A} → Run resources n s → Step s t → Run resources (1 + n) t
