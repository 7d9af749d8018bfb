-- ===== src/ControlPlane/Ticked/Turns.antt =====
-- One turn of an iteration of internal/controller-manager/controller_manager.go: its loop, or one
-- of its goroutines.
use galera_k8s_operator.Base.{List, [], ◌∷◌, ◌++◌, focus}
use mathlib.Core.List.{append_assoc, append-nil}
use mathlib.Core.List.Permᴰ
use galera_k8s_operator.Entities.Agent.{TimeText}
use galera_k8s_operator.Storage.{Storage}
use galera_k8s_operator.ControllerManager as Manager
use galera_k8s_operator.ControllerManager.{Iteration, begin_iteration}
use galera_k8s_operator.ControllerManager.Progress.{waiting}
use galera_k8s_operator.ControlPlane.System.{Job, write_job}
use galera_k8s_operator.ControlPlane.Ticked.{look, Turn}
use galera_k8s_operator.ControlPlane.Ticked.Follows.{
  Follows, look-Follows, write-Follows, rearranged,
}

-- The goroutines of an iteration that run, and those that are still to be started
abbrev pub goroutines : Iteration Job → List Job
goroutines i = i.running ++ (waiting i.admitted ++ i.pending)

module _ ⦃rfc : TimeText⦄ where
  -- A turn of an iteration; what it leaves out stays a job that waits for ever.
  pub record Turned (s : Storage) (i : Iteration Job) (rest : List Job) : Type 0 where
    pub left : List Job
    pub follows : Follows s (goroutines i ++ (left ++ rest))

  pub Turn-Follows :
      (s t : Storage) (i j : Iteration Job) (rest : List Job)
      → Turn s i t j
      → Follows s (goroutines i ++ rest)
      → Turned t j rest
  Turn-Follows s t i j rest (Turn.loops k (Manager.admit r p e f) x) g = record {
    left = [];
    follows =
        rearranged s (goroutines i ++ rest) _
          (rw (e, f) (Permᴰ.refl ((i.running ++ r ∷ p) ++ rest))) g;
  }
  Turn-Follows s t i j rest (Turn.loops k (Manager.cancel r p e f) x) g = record {
    left = r ∷ p;
    follows =
        rearranged s (goroutines i ++ rest) _
          (rw (e, f, append-nil i.running, append_assoc i.running (r ∷ p) rest)
            (Permᴰ.refl (i.running ++ (r ∷ p ++ rest))))
          g;
  }
  Turn-Follows s t i j rest (Turn.loops k (Manager.start r e h) x) g = record {
    left = [];
    follows =
        rearranged s (goroutines i ++ rest) _
          (rw e (Permᴰ.append_right rest (Permᴰ.symm (Permᴰ.middle r i.running i.pending)))) g;
  }
  Turn-Follows s t i j rest (Turn.loops k (Manager.finish a r b e) x) g = absurd x
  Turn-Follows s t i j rest (Turn.looks a b r e) g =
      let w = waiting i.admitted ++ i.pending in
      let f =
        rearranged s (goroutines i ++ rest) (r ∷ (((a ++ b) ++ w) ++ rest))
          (rw e (Permᴰ.symm (focus a b w rest r))) g in
      record {
        left = [];
        follows =
            rearranged s (look s r ∷ (((a ++ b) ++ w) ++ rest)) _ (focus a b w rest (look s r))
              (look-Follows s r (((a ++ b) ++ w) ++ rest) f);
      }
  Turn-Follows s t i j rest (Turn.writes a b w e) g =
      let v = waiting i.admitted ++ i.pending in
      let f =
        rearranged s (goroutines i ++ rest) (write_job w ∷ (((a ++ b) ++ v) ++ rest))
          (rw e (Permᴰ.symm (focus a b v rest (write_job w)))) g in
      record { left = []; follows = write-Follows s w (((a ++ b) ++ v) ++ rest) f }
