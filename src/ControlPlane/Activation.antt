-- ===== src/ControlPlane/Activation.antt =====
-- From an agent's tick to an active node: internal/agent/hb-collector/hb.go, handleHeartbeat of
-- internal/state-api/server.go and the controller of nodes, one after the other.
use galera_k8s_operator.Base.{
  ℤ, ℕ, String, ◌≡◌, ◌≢◌, refl, ◌∙◌, ap, some, none, Result, ok, assign, IsInt64,
}
use mathlib.Core.Path.{subst}
use galera_k8s_operator.Json.{Json}
use galera_k8s_operator.Entities.Agent.{TimeText, State}
use galera_k8s_operator.Entities.AgentJson.{encode_state}
use galera_k8s_operator.Entities.General.{GeneralTargetState, status_active}
use galera_k8s_operator.Entities.Node as Node_v1
use galera_k8s_operator.Entities.Node.{NodeTargetState}
use galera_k8s_operator.Entities.Node.RoundTrip.{
  IsInt64Node, omitted_spec, from_general_names, from_general-node_resource,
}
use galera_k8s_operator.Entities.Node.Bounds.{from_general-IsInt64Node}
use galera_k8s_operator.Storage.{Storage, resource_key}
use galera_k8s_operator.Storage.Laws.{stored}
use galera_k8s_operator.Storage.Laws.Invariant.{IsValid}
use galera_k8s_operator.Storage.Interface.{in_memory}
use galera_k8s_operator.StateApi.{with_heartbeat}
use galera_k8s_operator.StateApi.Heartbeats.{reported_resource}
use galera_k8s_operator.Controller.Outcome.{succeeded}
use galera_k8s_operator.Controller.Node.{reconcile, with_status}
use galera_k8s_operator.Controller.Node.Laws.{IsReady, active_resource, reconcile_ready}
use galera_k8s_operator.Agent.HbCollector.{Sight, HbCollector}
use galera_k8s_operator.Agent.HbCollector.Laws.{seen_fits}
use galera_k8s_operator.Agent.HbCollector.Send.{tick}
use galera_k8s_operator.Agent.HbCollector.Delivery.{deliver, stamped, tick_recorded}
use galera_k8s_operator.ControlPlane.Stale.{stored-assign}

module _ ⦃rfc : TimeText⦄ where
  -- A node as it is read back from its resource
  abbrev pub read_back : NodeTargetState → NodeTargetState
  read_back n = record n {
    version = Node_v1.version;
    kind = Node_v1.kind;
    spec = omitted_spec n.spec;
  }

  -- A node is stored as active, with a report.
  pub record IsStoredActive (name : String) (hb : State) (s : Storage) : Type 0 where
    pub resource : GeneralTargetState
    pub there : stored Node_v1.kind name s ≡ some resource
    pub node : NodeTargetState
    pub decoded : Node_v1.from_general resource ≡ ok node
    pub is_active : node.spec.status ≡ status_active
    pub own_report : node.spec.heartbeat ≡ hb

  -- The reconciliation of a node whose report is ready.
  activated :
      (node : NodeTargetState) (hb : State) (s : Storage) (j : Json)
      → IsInt64Node (with_heartbeat node hb).spec
      → IsReady (with_heartbeat node hb)
      → encode_state hb ≡ ok j
      → stored Node_v1.kind node.name s ≢ none
      → let (res, s') = reconcile (reported_resource in_memory node hb j) s in
        (res ≡ succeeded) × IsStoredActive node.name hb s'
  activated node hb s j fits ready e there =
      let n = read_back (with_heartbeat node hb) in
      let made =
        reconcile_ready (reported_resource in_memory node hb j) n s j
          (from_general-node_resource (with_heartbeat node hb) j fits e)
          (record {
            creating = ready.creating;
            reported = ready.reported;
            role = ready.role;
            prepared = ready.prepared;
            in_primary = ready.in_primary;
          })
          e there in
      (
        ap (λ x. x.0) made,
        rw (ap (λ x. x.1) made) (record {
          resource = active_resource n j;
          there = stored-assign Node_v1.kind node.name (active_resource n j) s;
          node = read_back (with_status n status_active);
          decoded =
              from_general-node_resource (with_status n status_active) j
                (record {
                  cluster_size_IsInt64 = fits.cluster_size_IsInt64;
                  wsrep_size_IsInt64 = fits.wsrep_size_IsInt64;
                })
                e;
          is_active = refl;
          own_report = refl;
        }),
      )

  module _ (atoi : String → Result ℤ)
      (atoi_fits : (s : String) (i : ℤ) → atoi s ≡ ok i → IsInt64 i) where
    -- Where Atoi returns numbers of 64 bits: an agent has the name of a node that is stored in a
    -- valid storage, is being created and has a known role; at a tick it sees the flag file and the
    -- status Primary, and its Post reaches the server, at a time that is not zero. Then the next
    -- reconciliation of what is stored succeeds, and leaves the node active, with that report.
    pub report_activates :
        (now : ℕ) (url status : String) (v : Sight) (c : HbCollector) (s : Storage)
        (gen : GeneralTargetState) (node : NodeTargetState) (j : Json)
        → IsValid s
        → c.name ≢ ""
        → stored Node_v1.kind c.name s ≡ some gen
        → gen.name ≡ c.name
        → Node_v1.from_general gen ≡ ok node
        → encode_state (stamped atoi atoi_fits now c status v) ≡ ok j
        → IsReady (with_heartbeat node (stamped atoi atoi_fits now c status v))
        → let s' = (tick (deliver now) atoi url status v c s).1 in
          (g : GeneralTargetState) × (stored Node_v1.kind c.name s' ≡ some g)
          × ((reconcile g s').0 ≡ succeeded)
          × IsStoredActive c.name (stamped atoi atoi_fits now c status v) (reconcile g s').1
    report_activates now url status v c s gen node j valid named found own decoded e ready =
        let hb = stamped atoi atoi_fits now c status v in
        let g = reported_resource in_memory node hb j in
        let s' : Storage = record { gr = assign (resource_key Node_v1.kind c.name) g s.gr } in
        let name_same : node.name ≡ c.name = (from_general_names gen node decoded).0 ∙ own in
        let sizes = from_general-IsInt64Node gen node decoded in
        let stands : stored Node_v1.kind c.name s' ≡ some g =
          stored-assign Node_v1.kind c.name g s in
        let at_node : stored Node_v1.kind node.name s' ≡ some g =
          ap (λ k. stored Node_v1.kind k s') name_same ∙ stands in
        let (good, active) =
          activated node hb s' j
            (record {
              cluster_size_IsInt64 = sizes.cluster_size_IsInt64;
              wsrep_size_IsInt64 = seen_fits atoi atoi_fits c status v;
            })
            ready e (λ x. cc (x, at_node)) in
        rw
          (tick_recorded atoi atoi_fits now url status v c s gen node j valid named found own
            decoded e)
          (g, stands, good, subst (λ k. IsStoredActive k hb (reconcile g s').1) name_same active)
