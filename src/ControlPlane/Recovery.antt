-- ===== src/ControlPlane/Recovery.antt =====
-- From every state of cmd/controller-manager/main.go a full cluster can be reached.
use galera_k8s_operator.Base.{
  ℕ, zero, suc, ltb, Bool-cases, ◌+◌, ◌≤◌, ◌≡◌, ◌≢◌, refl, sym, ◌∙◌, ap, String, false, inl, inr,
  List, some, ◌==◌, arith, length, length-append_last, lookup, All, All-lookup, Option-cases, ok,
}
use mathlib.Core.Option.{some-injective}
use galera_k8s_operator.Entities.Agent.{TimeText}
use galera_k8s_operator.Json.Bounds.{ok-injective}
use galera_k8s_operator.Entities.General.{GeneralTargetState}
use galera_k8s_operator.Entities.Node as Node_v1
use galera_k8s_operator.Entities.Node.{NodeTargetState}
use galera_k8s_operator.Entities.Node.RoundTrip.{from_general_names}
use galera_k8s_operator.Storage.{initial_cluster, get_nodes_by_cluster}
use galera_k8s_operator.Storage.Laws.{stored}
use galera_k8s_operator.Controller.Cluster.Decision.{IsActive}
use galera_k8s_operator.ControlPlane.Members.{IsEntry}
use galera_k8s_operator.ControlPlane.Census.{node_key, keys_differ, seat_cases}
use galera_k8s_operator.ControlPlane.Reports.{stored-IsNode}
use galera_k8s_operator.ControlPlane.AllActive.{IsActiveResource, AreActive, nodes_active}
use galera_k8s_operator.ControlPlane.Safety.{Reach-IsSound, Reach-nodes}
use galera_k8s_operator.ControlPlane.Growth.{Leads, here, Leads-Reach, Leads-trans, nodes_grow}
use galera_k8s_operator.ControlPlane.ScaleUp.{scale_up_reached}
use galera_k8s_operator.ControlPlane.System.{System, Reach}
use galera_k8s_operator.ControlPlane.Activate.Creating.{activate_creating}

module _ ⦃rfc : TimeText⦄ where
  -- What is stored for a node is active.
  abbrev IsCleared : String → System → Type 0
  IsCleared name s =
      (v : GeneralTargetState) → stored Node_v1.kind name s.storage ≡ some v → IsActiveResource v

  -- A state that follows, in which a node is active if it is there, and all else is as it was
  record Cleared (name : String) (s : System) : Type 0 where
    next : System
    leads : Leads s next
    cleared : IsCleared name next
    others :
        (k : String)
        → (node_key name == k) ≡ false
        → lookup k next.storage.gr ≡ lookup k s.storage.gr

  IsCleared-kept :
      (name other : String) (s : System) (c : Cleared other s)
      → (node_key other == node_key name) ≡ false
      → IsCleared name s
      → IsCleared name c.next
  IsCleared-kept name other s c d h v e = h v (sym (c.others (node_key name) d) ∙ e)

  all_seats :
      (s : System)
      → Reach s
      → IsCleared "node-1" s
      → IsCleared "node-2" s
      → IsCleared "node-3" s
      → AreActive s.storage.gr
  all_seats s r a b c k v e m =
      let entry = All-lookup IsEntry k v s.storage.gr (Reach-IsSound s r).sane.entries e in
      let named : k ≡ node_key m.node.name =
        entry.keyed ∙ rw (m.kind_same, (from_general_names v m.node m.decoded).0) refl in
      elim (seat_cases m.member.seat) [
        | inl (f, g) ↦ a v (rw (← f, ← named) e)
        | inr (inl (f, g)) ↦ b v (rw (← f, ← named) e)
        | inr (inr (f, g)) ↦ c v (rw (← f, ← named) e)
      ]

  -- A state that follows, in which all nodes of the cluster are active
  record Active (s : System) : Type 0 where
    next : System
    leads : Leads s next
    nodes : List NodeTargetState
    found : get_nodes_by_cluster initial_cluster.name next.storage ≡ ok nodes
    few : length nodes ≤ 3
    all : All IsActive nodes

  -- A state that follows, in which the cluster has three nodes, all active
  record Full (s : System) : Type 0 where
    next : System
    leads : Leads s next
    nodes : List NodeTargetState
    found : get_nodes_by_cluster initial_cluster.name next.storage ≡ ok nodes
    all : All IsActive nodes
    three : length nodes ≡ 3

  module _ (now : ℕ) (t : String) (late : now ≢ 0) (shown : rfc.format now ≡ some t) where
    clear : (name : String) (s : System) → Reach s → Cleared name s
    clear name s r = elim (Option-cases (stored Node_v1.kind name s.storage)) [
      | inl e ↦ record { next = s; leads = here; cleared = λ v f. cc (e, f); others = λ k d. refl }
      | inr (g, e) ↦
          let m = stored-IsNode name s.storage g (Reach-IsSound s r).sane e in
          elim m.member.working [
            | inr a ↦ record {
              next = s;
              leads = here;
              cleared = λ v f.
                  let same : g ≡ v = some-injective g v (sym e ∙ f) in
                  rw (← same) (record { node = m.node; decoded = m.decoded; is_active = a });
              others = λ k d. refl;
            }
            | inl c ↦
                let x = activate_creating now t late shown name s g m r e c in
                record {
                  next = x.next;
                  leads = x.leads;
                  cleared = λ v f.
                      let same : x.resource ≡ v = some-injective x.resource v (sym x.there ∙ f) in
                      rw (← same) x.active;
                  others = x.others;
                }
          ]
    ]

    all_active : (s : System) → Reach s → Active s
    unfolding get_nodes_by_cluster
    all_active s r =
        let (d12, d13, d21, d23, d31, d32) = keys_differ in
        let a = clear "node-1" s r in
        let ra = Leads-Reach s a.next a.leads r in
        let b = clear "node-2" a.next ra in
        let rb = Leads-Reach a.next b.next b.leads ra in
        let c = clear "node-3" b.next rb in
        let rc = Leads-Reach b.next c.next c.leads rb in
        let first = IsCleared-kept "node-1" "node-2" a.next b d21 a.cleared in
        let active =
          all_seats c.next rc (IsCleared-kept "node-1" "node-3" b.next c d31 first)
            (IsCleared-kept "node-2" "node-3" b.next c d32 b.cleared) c.cleared in
        let h = (Reach-IsSound c.next rc).sane in
        let (nodes, found, some_node, few, one_primary) = Reach-nodes c.next rc in
        record {
          next = c.next;
          leads =
              Leads-trans s a.next c.next a.leads
                (Leads-trans a.next b.next c.next b.leads c.leads);
          nodes = nodes;
          found = found;
          few = few;
          all = nodes_active c.next.storage.gr nodes h.distinct h.entries active found;
        }

    full : (s : System) (a : Active s) → 3 ≤ length a.nodes → Full s
    full s a h = record {
      next = a.next;
      leads = a.leads;
      nodes = a.nodes;
      found = a.found;
      all = a.all;
      three = omega (arith, a.few);
    }

    kept_nodes :
        (s : System) (r : Reach s) (nodes : List NodeTargetState)
        → get_nodes_by_cluster initial_cluster.name s.storage ≡ ok nodes
        → length nodes ≤ length (all_active s r).nodes
    kept_nodes s r nodes e =
        let a = all_active s r in
        let (before, after, f, g, h) = nodes_grow s a.next r a.leads in
        let same : before ≡ nodes = ok-injective (sym f ∙ e) in
        let last : after ≡ a.nodes = ok-injective (sym g ∙ a.found) in
        omega (arith, h, ap length same, ap length last)

    climb :
        (k : ℕ) (s : System) (r : Reach s) (nodes : List NodeTargetState)
        → get_nodes_by_cluster initial_cluster.name s.storage ≡ ok nodes
        → 3 ≤ k + length nodes
        → Full s
    climb zero s r nodes e h = full s (all_active s r) (omega (arith, kept_nodes s r nodes e))
    climb (suc k) s r nodes e h =
        let a = all_active s r in
        let ra = Leads-Reach s a.next a.leads r in
        elim (Bool-cases (ltb (length a.nodes) 3)) [
          | inr f ↦ full s a (ground arith)
          | inl f ↦
              let (t, l, g) = scale_up_reached a.next a.nodes ra a.found a.all (ground arith) in
              let x =
                climb k t (Leads-Reach a.next t l ra) _ g
                  (omega (arith, kept_nodes s r nodes e, length-append_last a.nodes _)) in
              record {
                next = x.next;
                leads = Leads-trans s a.next x.next a.leads (Leads-trans a.next t x.next l x.leads);
                nodes = x.nodes;
                found = x.found;
                all = x.all;
                three = x.three;
              }
        ]

    -- From every state that is reached from NewStorage, whatever its goroutines are at, a state can
    -- be reached in which GetNodesByCluster of the cluster returns three nodes, all of them active,
    -- if there is a time that is not zero and that can be written in a report.
    pub recovers :
        (s : System)
        → Reach s
        → (t : System) × Leads s t
          × ((nodes : List NodeTargetState) × (get_nodes_by_cluster initial_cluster.name t.storage
                ≡ ok nodes)
              × All IsActive nodes
              × (length nodes ≡ 3))
    recovers s r =
        let (nodes, found, some_node, few, one_primary) = Reach-nodes s r in
        let x = climb 2 s r nodes found (omega (arith, some_node)) in
        (x.next, x.leads, (x.nodes, x.found, x.all, x.three))
