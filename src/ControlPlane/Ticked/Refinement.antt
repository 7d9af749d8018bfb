-- ===== src/ControlPlane/Ticked/Refinement.antt =====
-- The control plane with the ticker and the limiter of internal/controller-manager/controller_manager.go,
-- seen as the control plane of cmd/controller-manager/main.go whose goroutines run in any order.
use galera_k8s_operator.Base.{◌≡◌, refl, List, [], ◌∷◌, ◌++◌, map, ok, exchange, sink}
use mathlib.Core.List.{Permᴰ, append_assoc, append-nil}
use mathlib.Core.List.Permᴰ
use mathlib.Core.Path.{subst}
use galera_k8s_operator.Json.Bounds.{ok-injective}
use galera_k8s_operator.Entities.Agent.{TimeText}
use galera_k8s_operator.Storage.{Storage}
use galera_k8s_operator.ControllerManager.{Iteration, begin_iteration}
use galera_k8s_operator.ControlPlane.Plans.{perform, plan_heartbeat}
use galera_k8s_operator.ControlPlane.System.{Job, cluster_job, node_job, write_job, System}
use galera_k8s_operator.ControlPlane.System
use galera_k8s_operator.ControlPlane.Ticked.{Plane, IsLoopOver, IsLoop, look, Turn, Move}
use galera_k8s_operator.ControlPlane.Ticked
use galera_k8s_operator.ControlPlane.Ticked.Follows.{
  Follows, look-Follows, write-Follows, rearranged, clusters-Follows, nodes-Follows, report-Follows,
}
use galera_k8s_operator.ControlPlane.Ticked.Turns.{goroutines, Turn-Follows}

module _ ⦃rfc : TimeText⦄ where
  -- All goroutines of a state, and `gone`, those that were left out
  abbrev pub all_jobs : Plane → List Job → List Job
  all_jobs m gone = goroutines m.clusters ++ (goroutines m.nodes ++ (m.others ++ gone))

  record Covered (m : Plane) : Type 0 where
    gone : List Job
    follows : Follows m.storage (all_jobs m gone)

  -- The other goroutines first
  others_first :
      (m : Plane) (gone : List Job)
      → Follows m.storage (all_jobs m gone)
      → Follows m.storage (m.others ++ (goroutines m.clusters ++ (goroutines m.nodes ++ gone)))
  others_first m gone f =
      rearranged m.storage (all_jobs m gone) _
        (sink m.others (goroutines m.clusters) (goroutines m.nodes) gone) f

  others_back :
      (s : Storage) (o c n gone : List Job)
      → Follows s (o ++ (c ++ (n ++ gone)))
      → Follows s (c ++ (n ++ (o ++ gone)))
  others_back s o c n gone f = rearranged s _ _ (Permᴰ.symm (sink o c n gone)) f

  begun_goroutines :
      (l : List Job) (i : Iteration Job) → begin_iteration (ok l) ≡ ok i → goroutines i ≡ l
  unfolding begin_iteration
  begun_goroutines l i e = rw (← ok-injective e) refl

  over_goroutines : (i : Iteration Job) → IsLoopOver i → goroutines i ≡ i.running
  over_goroutines i h = rw (h.none_pending, h.none_admitted) (append-nil i.running)

  Move-Covered : (m n : Plane) → Move m n → Covered m → Covered n
  Move-Covered m n (Move.clusters_begin l i h e b) c = record {
    gone = c.gone;
    follows =
        let k = goroutines m.nodes in
        let f = clusters-Follows m.storage (all_jobs m c.gone) l e c.follows in
        rearranged m.storage (map cluster_job l ++ all_jobs m c.gone) _
          (rw
            (
              begun_goroutines (map cluster_job l) i b,
              over_goroutines m.clusters h,
              append_assoc m.clusters.running m.others c.gone,
            )
            (Permᴰ.append_left (map cluster_job l)
              (exchange k m.clusters.running (m.others ++ c.gone))))
          f;
  }
  Move-Covered m n (Move.nodes_begin l i h e b) c = record {
    gone = c.gone;
    follows =
        let k = goroutines m.clusters in
        let f = nodes-Follows m.storage (all_jobs m c.gone) l e c.follows in
        rearranged m.storage (map node_job l ++ all_jobs m c.gone) _
          (rw
            (
              begun_goroutines (map node_job l) i b,
              over_goroutines m.nodes h,
              append_assoc m.nodes.running m.others c.gone,
            )
            (exchange k (map node_job l) (m.nodes.running ++ (m.others ++ c.gone))))
          f;
  }
  Move-Covered m n (Move.clusters_turn s i x) c =
      let t = Turn-Follows m.storage s m.clusters i _ x c.follows in
      record {
        gone = t.left ++ c.gone;
        follows =
            rearranged s _ _
              (Permᴰ.append_left (goroutines i)
                (Permᴰ.symm (sink t.left (goroutines m.nodes) m.others c.gone)))
              t.follows;
      }
  Move-Covered m n (Move.nodes_turn s i x) c =
      let k = goroutines m.clusters in
      let o = m.others ++ c.gone in
      let t = Turn-Follows m.storage s m.nodes i (k ++ o) x (
        rearranged m.storage (all_jobs m c.gone) _ (exchange (goroutines m.nodes) k o) c.follows) in
      record {
        gone = t.left ++ c.gone;
        follows =
            rearranged s _ _
              (Permᴰ.trans (exchange k (goroutines i) (m.others ++ (t.left ++ c.gone)))
                (Permᴰ.append_left (goroutines i) (Permᴰ.symm (sink t.left k m.others c.gone))))
              t.follows;
      }
  Move-Covered m n (Move.other_looks a b j e) c =
      let r = goroutines m.clusters ++ (goroutines m.nodes ++ c.gone) in
      let f =
        rearranged m.storage (m.others ++ r) (j ∷ ((a ++ b) ++ r))
          (rw e (Permᴰ.symm (Permᴰ.append_right r (Permᴰ.middle j a b))))
          (others_first m c.gone c.follows) in
      let t = look m.storage j in
      record {
        gone = c.gone;
        follows =
            others_back m.storage (a ++ t ∷ b) (goroutines m.clusters) (goroutines m.nodes) c.gone (
              rearranged m.storage (t ∷ ((a ++ b) ++ r)) ((a ++ t ∷ b) ++ r)
                (Permᴰ.append_right r (Permᴰ.middle t a b))
                (look-Follows m.storage j ((a ++ b) ++ r) f));
      }
  Move-Covered m n (Move.other_writes a b w e) c =
      let r = goroutines m.clusters ++ (goroutines m.nodes ++ c.gone) in
      let f =
        rearranged m.storage (m.others ++ r) (write_job w ∷ ((a ++ b) ++ r))
          (rw e (Permᴰ.symm (Permᴰ.append_right r (Permᴰ.middle (write_job w) a b))))
          (others_first m c.gone c.follows) in
      record {
        gone = c.gone;
        follows =
            others_back (perform w m.storage) (a ++ b) (goroutines m.clusters) (goroutines m.nodes)
              c.gone (write-Follows m.storage w ((a ++ b) ++ r) f);
      }
  Move-Covered m n (Move.reported now req) c = record {
    gone = c.gone;
    follows =
        others_back m.storage (write_job (plan_heartbeat now req m.storage) ∷ m.others)
          (goroutines m.clusters) (goroutines m.nodes) c.gone
          (report-Follows m.storage _ now req (others_first m c.gone c.follows));
  }

  Reach-Covered : (m : Plane) → Ticked.Reach m → Covered m
  Reach-Covered m (Ticked.start i b) = record {
    gone = [];
    follows = record {
      state = _;
      reached = System.start;
      same = refl;
      found = rw (begun_goroutines [] i b) Permᴰ.nil;
    };
  }
  Reach-Covered n (Ticked.later {m} r x) = Move-Covered m n x (Reach-Covered m r)

  -- Every state that the control plane reaches with its ticker and its limiters is a state of the
  -- control plane whose goroutines run in any order: one that is reached from NewStorage, with the
  -- same storage, and whose jobs are the goroutines that run or are still to be started, and those
  -- that were left out, in some order.
  pub refined :
      (m : Plane)
      → Ticked.Reach m
      → (gone : List Job) × ((t : System) × System.Reach t
          × (t.storage ≡ m.storage)
          × Permᴰ (all_jobs m gone) t.jobs)
  refined m r =
      let c = Reach-Covered m r in
      (c.gone, (c.follows.state, c.follows.reached, c.follows.same, c.follows.found))

  -- What holds of the storage in every order of the goroutines holds with the ticker and the
  -- limiters.
  pub transfer :
      (P : Storage → Type 0)
      → ((t : System) → System.Reach t → P t.storage)
      → (m : Plane) → Ticked.Reach m
      → P m.storage
  transfer P h m r = let f = (Reach-Covered m r).follows in subst P f.same (h f.state f.reached)
