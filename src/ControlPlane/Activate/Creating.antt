-- ===== src/ControlPlane/Activate/Creating.antt =====
-- A node that is being created and has not become active yet is made active by a report and by the
-- controller of nodes, internal/controller/node, in every state of cmd/controller-manager/main.go.
use galera_k8s_operator.Base.{
  ℕ, ◌≡◌, ◌≢◌, refl, sym, ◌∙◌, ap, String, some, eq_refl, assign, lookup-assign, All-lookup,
}
use galera_k8s_operator.Entities.Agent.{TimeText}
use galera_k8s_operator.Entities.AgentJson.{state_object}
use galera_k8s_operator.Json.{str}
use galera_k8s_operator.Entities.General.{GeneralTargetState, status_active, status_creating}
use galera_k8s_operator.Entities.Node as Node_v1
use galera_k8s_operator.Entities.Node.{NodeTargetState}
use galera_k8s_operator.Entities.Node.RoundTrip.{from_general_names, from_general-node_resource}
use galera_k8s_operator.Entities.Node.Bounds.{from_general-IsInt64Node}
use galera_k8s_operator.Storage.{Storage}
use galera_k8s_operator.Storage.Keys.{resource_key-injective, node_kind-NoSlash}
use galera_k8s_operator.Storage.Laws.{stored}
use galera_k8s_operator.Storage.Interface.{in_memory}
use galera_k8s_operator.StateApi.{with_heartbeat}
use galera_k8s_operator.StateApi.Heartbeats.{reported_resource}
use galera_k8s_operator.Controller.Node.{with_status}
use galera_k8s_operator.Controller.Node.Laws.{active_resource}
use galera_k8s_operator.ControlPlane.Activation.{read_back}
use galera_k8s_operator.ControlPlane.Stale.{stored-assign}
use galera_k8s_operator.ControlPlane.Members.{IsNode, IsEntry, IsSane}
use galera_k8s_operator.ControlPlane.Census.{node_key}
use galera_k8s_operator.ControlPlane.Safety.{Reach-IsSound}
use galera_k8s_operator.ControlPlane.Growth.{Leads-Reach, Leads-trans}
use galera_k8s_operator.ControlPlane.System.{System, Reach}
use galera_k8s_operator.ControlPlane.Activate.{
  ready_report, ready_request, seat-given, report_reached, reconcile_reached, Activated,
  stamped_encoded, reported_storage, activated_storage,
}

module _ ⦃rfc : TimeText⦄ where
  -- The names of a node that is stored
  stored_names :
      (name : String) (s : Storage) (g : GeneralTargetState) (m : IsNode g)
      → IsSane s
      → stored Node_v1.kind name s ≡ some g
      → (g.name ≡ name) × (m.node.name ≡ name) × (name ≢ "")
  stored_names name s g m h e =
      let entry = All-lookup IsEntry (node_key name) g s.gr h.entries e in
      let own : g.name ≡ name =
        sym
          (resource_key-injective Node_v1.kind g.kind name g.name node_kind-NoSlash
            (rw m.kind_same node_kind-NoSlash) entry.keyed).1 in
      let named : m.node.name ≡ name = (from_general_names g m.node m.decoded).0 ∙ own in
      (own, named, rw (← named) (seat-given m.member.seat))

  module _ (now : ℕ) (t : String) (late : now ≢ 0) (shown : rfc.format now ≡ some t) where
    pub activate_creating :
        (name : String) (s : System) (g : GeneralTargetState) (m : IsNode g)
        → Reach s
        → stored Node_v1.kind name s.storage ≡ some g
        → m.node.spec.status ≡ status_creating
        → Activated name s
    activate_creating name s g m reach e c =
        let h = (Reach-IsSound s reach).sane in
        let hb = record (ready_report name) { timestamp = now } in
        let j = state_object hb (str t) in
        let enc = stamped_encoded (ready_report name) now t shown in
        let (own, named, given) = stored_names name s.storage g m h e in
        let r = reported_resource in_memory m.node hb j in
        let a = report_reached now (ready_request name) s in
        let at_a : a.next.storage ≡ record { gr = assign (node_key name) r s.storage.gr } =
          a.written_by ∙ reported_storage now name j s.storage g m h given own e enc in
        let there_a : stored Node_v1.kind name a.next.storage ≡ some r =
          ap (stored Node_v1.kind name) at_a ∙ stored-assign Node_v1.kind name r s.storage in
        let b =
          reconcile_reached (node_key name) r a.next (Leads-Reach s a.next a.leads reach) there_a
            (rw (from_general_names g m.node m.decoded).1 (eq_refl Node_v1.kind)) in
        let n = read_back (with_heartbeat m.node hb) in
        let last = active_resource n j in
        let at_b : b.next.storage ≡ record { gr = assign (node_key name) last a.next.storage.gr } =
          b.written_by ∙ activated_storage now name j a.next.storage g m late named c enc there_a in
        let fits = from_general-IsInt64Node g m.node m.decoded in
        record {
          next = b.next;
          leads = Leads-trans s a.next b.next a.leads b.leads;
          resource = last;
          there =
              ap (stored Node_v1.kind name) at_b
              ∙ stored-assign Node_v1.kind name last a.next.storage;
          active = record {
            node = read_back (with_status n status_active);
            decoded =
                from_general-node_resource (with_status n status_active) j
                  (record {
                    cluster_size_IsInt64 = fits.cluster_size_IsInt64;
                    wsrep_size_IsInt64 = refl;
                  })
                  enc;
            is_active = refl;
          };
          others = λ k d. rw (
            at_b,
            lookup-assign (node_key name) k last a.next.storage.gr,
            d,
            at_a,
            lookup-assign (node_key name) k r s.storage.gr,
            d,
          );
        }
