-- ===== src/ControlPlane/Stale.antt =====
-- A report that is read before a node is made active, and written after.
use galera_k8s_operator.Base.{
  String, ◌≡◌, ◌≢◌, refl, ◌∙◌, sym, ap, some, none, ok, assign, lookup-assign, assign-assign,
  eq_refl,
}
use galera_k8s_operator.Json.{Json}
use galera_k8s_operator.Entities.Agent.{TimeText, State}
use galera_k8s_operator.Entities.AgentJson.{encode_state}
use galera_k8s_operator.Entities.General.{GeneralTargetState}
use galera_k8s_operator.Entities.Node as Node_v1
use galera_k8s_operator.Entities.Node.{NodeTargetState, node_resource, spec_object}
use galera_k8s_operator.Entities.Node.RoundTrip.{to_general_lem, from_general_names}
use galera_k8s_operator.Storage.{Storage, resource_key, get_general_resource}
use galera_k8s_operator.Storage.Laws.{stored, update_resource_lem}
use galera_k8s_operator.Storage.Laws.Invariant.{IsValid, get_lem}
use galera_k8s_operator.StateApi.{with_heartbeat}
use galera_k8s_operator.Controller.Node.Laws.{IsReady, active_resource, reconcile_ready}
use galera_k8s_operator.ControlPlane.Plans.{update, perform, plan_node, plan_report}
use galera_k8s_operator.ControlPlane.Plans.Nodes.{reconcile_node_plan}
use galera_k8s_operator.ControlPlane.Reports.{find_value, kind_named}

module _ ⦃rfc : TimeText⦄ where
  -- A node with a report that encodes to `j`, as a resource.
  abbrev pub reported : NodeTargetState → State → Json → GeneralTargetState
  reported n hb j = let n' = with_heartbeat n hb in node_resource n' (spec_object n'.spec j)

  pub stored-assign :
      (kind name : String) (g : GeneralTargetState) (s : Storage)
      → stored kind name (record { gr = assign (resource_key kind name) g s.gr }) ≡ some g
  stored-assign kind name g s = rw (
    lookup-assign (resource_key kind name) (resource_key kind name) g s.gr,
    eq_refl (resource_key kind name),
  )

  plan_report_lem :
      (hb : State) (r : GeneralTargetState) (n : NodeTargetState) (s : Storage) (j : Json)
      → IsValid s
      → hb.name ≢ ""
      → stored Node_v1.kind hb.name s ≡ some r
      → Node_v1.from_general r ≡ ok n
      → encode_state hb ≡ ok j
      → plan_report hb s ≡ update (reported n hb j)
  unfolding plan_report
  plan_report_lem hb r n s j v named found decoded e = rw (
    find_value (get_general_resource hb.name Node_v1.kind s),
    get_lem hb.name Node_v1.kind s v named kind_named,
    found,
    decoded,
    to_general_lem (with_heartbeat n hb) j e,
  )

  write_reported :
      (n : NodeTargetState) (hb : State) (j : Json) (s : Storage)
      → stored n.kind n.name s ≢ none
      → perform (update (reported n hb j)) s
        ≡ record { gr = assign (resource_key n.kind n.name) (reported n hb j) s.gr }
  unfolding perform
  write_reported n hb j s p =
      ap (λ x. x.1)
        (update_resource_lem (reported n hb j) s (record { spec_IsJson = tt; meta_IsJson = tt }) p)

  -- A reconciliation makes a ready node of a valid storage active. If a report of that node was
  -- read before and is written after, the storage is what the report alone would have left: the
  -- node is CREATING again, and the activation is lost.
  pub activation_lost :
      (hb : State) (r : GeneralTargetState) (n : NodeTargetState) (s : Storage) (j k : Json)
      → IsValid s
      → hb.name ≢ ""
      → stored Node_v1.kind hb.name s ≡ some r
      → r.name ≡ hb.name
      → Node_v1.from_general r ≡ ok n
      → IsReady n
      → encode_state n.spec.heartbeat ≡ ok j
      → encode_state hb ≡ ok k
      → (stored Node_v1.kind hb.name (perform (plan_node r s) s) ≡ some (active_resource n j))
        × (perform (plan_report hb s) (perform (plan_node r s) s) ≡ perform (plan_report hb s) s)
        × (stored Node_v1.kind hb.name (perform (plan_report hb s) s) ≡ some (reported n hb k))
  activation_lost hb r n s j k v named found own decoded ready e f =
      let (name_same, kind_same) = from_general_names r n decoded in
      let key : resource_key n.kind n.name ≡ resource_key Node_v1.kind hb.name =
        rw (kind_same, name_same, own) refl in
      let here : stored n.kind n.name s ≢ none = rw (key, found) (λ x. cc x) in
      let activated : perform (plan_node r s) s
          ≡ record { gr = assign (resource_key n.kind n.name) (active_resource n j) s.gr } =
        sym (reconcile_node_plan r s)
        ∙ ap (λ x. x.1) (reconcile_ready r n s j decoded ready e here) in
      let still_here : stored n.kind n.name
            (record { gr = assign (resource_key n.kind n.name) (active_resource n j) s.gr })
          ≢ none =
        rw (stored-assign n.kind n.name (active_resource n j) s) (λ x. cc x) in
      let alone =
        ap (λ w. perform w s) (plan_report_lem hb r n s k v named found decoded f)
        ∙ write_reported n hb k s here in
      (
        rw (activated, ← key) (stored-assign n.kind n.name (active_resource n j) s),
        rw
            (
              activated,
              alone,
              plan_report_lem hb r n s k v named found decoded f,
              write_reported n hb k
                  (record { gr = assign (resource_key n.kind n.name) (active_resource n j) s.gr })
                  still_here,
              assign-assign (resource_key n.kind n.name) (reported n hb k) (active_resource n j)
                  s.gr,
            )
            refl,
        rw (alone, ← key) (stored-assign n.kind n.name (reported n hb k) s),
      )
