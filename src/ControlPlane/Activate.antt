-- ===== src/ControlPlane/Activate.antt =====
-- What a report and internal/controller/node can do for a node in every state of
-- cmd/controller-manager/main.go.
pub mod Creating
use galera_k8s_operator.Base.{
  map-middle, ℕ, pos, IsInt64, ◌≡◌, ◌≢◌, refl, sym, ◌∙◌, ap, String, true, false, ◌⊎◌, inl, inr,
  List, [], ◌∷◌, ◌++◌, map, none, some, ◌==◌, eq_iff, eq_refl, Table, lookup, assign, lookup-assign,
  assign-assign, All-lookup, Bool-cases, ok, if◌then◌else◌,
}
use mathlib.Core.Option.{some-injective}
use galera_k8s_operator.Json.{Json, raw, str}
use galera_k8s_operator.Entities.Agent.{TimeText, State, zero_state}
use galera_k8s_operator.Entities.AgentJson.{encode_state, encode_time, state_object}
use galera_k8s_operator.Entities.AgentJson.RoundTrip.{decode_state-encode_state}
use galera_k8s_operator.Entities.General.{
  GeneralTargetState, zero_general, status_active, status_creating,
}
use galera_k8s_operator.Entities.Node as Node_v1
use galera_k8s_operator.Entities.Node.{NodeTargetState}
use galera_k8s_operator.Entities.Node.RoundTrip.{from_general_names, from_general-node_resource}
use galera_k8s_operator.Entities.Node.Bounds.{from_general-IsInt64Node}
use galera_k8s_operator.Storage.{Storage, resource_key}
use galera_k8s_operator.Storage.Keys.{resource_key-injective, node_kind-NoSlash}
use galera_k8s_operator.Storage.Laws.{stored}
use galera_k8s_operator.Storage.Laws.Invariant.{list_lem, listed_there}
use galera_k8s_operator.Storage.Interface.{in_memory}
use galera_k8s_operator.StateApi.{Request, handle_heartbeat, with_heartbeat}
use galera_k8s_operator.StateApi.Heartbeats.{reported_resource}
use galera_k8s_operator.Controller.Node as Node_controller
use galera_k8s_operator.Controller.Node.{with_status}
use galera_k8s_operator.Controller.Node.Laws.{IsReady, active_resource, reconcile_ready}
use galera_k8s_operator.Agent.HbCollector.Laws.{encode_unstamped}
use galera_k8s_operator.Agent.HbCollector.Delivery.{handled, written}
use galera_k8s_operator.ControlPlane.Activation.{read_back}
use galera_k8s_operator.ControlPlane.AllActive.{IsActiveResource}
use galera_k8s_operator.ControlPlane.Stale.{stored-assign}
use galera_k8s_operator.ControlPlane.Plans.{perform, plan_node, plan_heartbeat}
use galera_k8s_operator.ControlPlane.Plans.Nodes.{reads_then_writes}
use galera_k8s_operator.ControlPlane.Members.{
  IsNode, IsEntry, IsSane, IsSeat, seat_1, seat_2, seat_3,
}
use galera_k8s_operator.ControlPlane.Census.{node_key}
use galera_k8s_operator.ControlPlane.Reports.{sane_IsValid, stored-IsNode}
use galera_k8s_operator.ControlPlane.Safety.{Reach-IsSound}
use galera_k8s_operator.ControlPlane.Growth.{Leads, here, on, Leads-Reach, Leads-trans}
use galera_k8s_operator.ControlPlane.System.{
  Job, node_job, write_job, System, list_nodes, read_node, read_report, write, Reach,
}

-- What the agent of a node sends that is ready, and the request
abbrev pub ready_report : String → State
ready_report name = record zero_state {
  name = name;
  wsrep_info = record zero_state.wsrep_info { wsrep_cluster_status = "Primary" };
  heartbeat = record zero_state.heartbeat { prepared = true };
}

abbrev pub ready_json : String → Json
ready_json name = state_object (ready_report name) (str "0001-01-01T00:00:00Z")

abbrev pub ready_request : String → Request
ready_request name = record { method = "POST"; body = raw (ready_json name); query_name = "" }

pub seat-given : {name role : String} → IsSeat name role → name ≢ ""
seat-given seat_1 e = cc e
seat-given seat_2 e = cc e
seat-given seat_3 e = cc e

seat_role : {name role : String} → IsSeat name role → (role ≡ "primary") ⊎ (role ≡ "secondary")
seat_role seat_1 = inl refl
seat_role seat_2 = inr refl
seat_role seat_3 = inr refl

module _ ⦃rfc : TimeText⦄ where
  -- A report reaches the server and is written, and no other goroutine does anything.
  pub record Handled (now : ℕ) (req : Request) (s : System) : Type 0 where
    pub next : System
    pub leads : Leads s next
    pub written_by : next.storage ≡ (handle_heartbeat in_memory now req s.storage).1

  pub report_reached : (now : ℕ) (req : Request) (s : System) → Handled now req s
  report_reached now req s = record {
    next = _;
    leads =
        on (on here (read_report now req))
          (write [] s.jobs (plan_heartbeat now req s.storage) refl);
    written_by = sym (reads_then_writes zero_general now req s.storage).2;
  }

  -- A node that is stored is listed, its goroutine reads and writes.
  pub record Reconciled (r : GeneralTargetState) (s : System) : Type 0 where
    pub next : System
    pub leads : Leads s next
    pub written_by : next.storage ≡ (Node_controller.reconcile r s.storage).1

  pub reconcile_reached :
      (k : String) (r : GeneralTargetState) (s : System)
      → Reach s
      → lookup k s.storage.gr ≡ some r
      → (r.kind == Node_v1.kind) ≡ true
      → Reconciled r s
  unfolding Node_controller.get_resources
  reconcile_reached k r s reach e t =
      let h = (Reach-IsSound s reach).sane in
      let (a, b, f) = listed_there Node_v1.kind k r s.storage.gr e t in
      record {
        next = _;
        leads =
            on
              (on
                (on here (
                  list_nodes (a ++ r ∷ b)
                    (list_lem Node_v1.kind s.storage (sane_IsValid s.storage h) ∙ ap ok f)))
                (read_node (s.jobs ++ map node_job a) (map node_job b) r
                  (map-middle node_job s.jobs a b r)))
              (write (s.jobs ++ map node_job a) (map node_job b) (plan_node r s.storage) refl);
        written_by = sym (reads_then_writes r 0 (ready_request "") s.storage).1;
      }

  pub record Activated (name : String) (s : System) : Type 0 where
    pub next : System
    pub leads : Leads s next
    pub resource : GeneralTargetState
    pub there : stored Node_v1.kind name next.storage ≡ some resource
    pub active : IsActiveResource resource
    pub others :
        (k : String)
        → (node_key name == k) ≡ false
        → lookup k next.storage.gr ≡ lookup k s.storage.gr

  pub stamped_encoded :
      (hb : State) (now : ℕ) (t : String)
      → rfc.format now ≡ some t
      → encode_state (record hb { timestamp = now })
        ≡ ok (state_object (record hb { timestamp = now }) (str t))
  unfolding encode_state encode_time
  stamped_encoded hb now t f = rw (f, encode_time)

  -- The storage after a ready report of a node.
  pub reported_storage :
      (now : ℕ) (name : String) (j : Json) (s : Storage) (g : GeneralTargetState) (m : IsNode g)
      → IsSane s
      → name ≢ ""
      → g.name ≡ name
      → stored Node_v1.kind name s ≡ some g
      → encode_state (record (ready_report name) { timestamp = now }) ≡ ok j
      → (handle_heartbeat in_memory now (ready_request name) s).1 ≡ record {
        gr =
            assign
              (node_key name)
              (reported_resource in_memory m.node
                (record (ready_report name) { timestamp = now })
                j)
              s.gr;
      }
  reported_storage now name j s g m h named own e f =
      let hb = ready_report name in
      let d = decode_state-encode_state hb (ready_json name) refl (encode_unstamped hb refl) in
      ap (λ x. x.1) (handled now (ready_request name) hb (ready_json name) s refl refl d)
      ∙ written (record hb { timestamp = now }) s g m.node j (sane_IsValid s h) named e own
          m.decoded f

  IsReady-node :
      (now : ℕ) (name : String) (g : GeneralTargetState) (m : IsNode g)
      → now ≢ 0
      → m.node.spec.status ≡ status_creating
      → IsReady (read_back (with_heartbeat m.node (record (ready_report name) { timestamp = now })))
  IsReady-node now name g m p c = record {
    creating = c;
    reported = p;
    role = seat_role m.member.seat;
    prepared = refl;
    in_primary = refl;
  }

  pub activated_storage :
      (now : ℕ) (name : String) (j : Json) (s : Storage) (g : GeneralTargetState) (m : IsNode g)
      → now ≢ 0
      → m.node.name ≡ name
      → m.node.spec.status ≡ status_creating
      → encode_state (record (ready_report name) { timestamp = now }) ≡ ok j
      → let hb = record (ready_report name) { timestamp = now } in
        stored Node_v1.kind name s ≡ some (reported_resource in_memory m.node hb j)
        → (Node_controller.reconcile (reported_resource in_memory m.node hb j) s).1 ≡ record {
          gr =
              assign
                (node_key name)
                (active_resource (read_back (with_heartbeat m.node hb)) j)
                s.gr;
        }
  activated_storage now name j s g m p own c f e =
      let hb = record (ready_report name) { timestamp = now } in
      let fits = from_general-IsInt64Node g m.node m.decoded in
      let back =
        from_general-node_resource (with_heartbeat m.node hb) j
          (record { cluster_size_IsInt64 = fits.cluster_size_IsInt64; wsrep_size_IsInt64 = refl })
          f in
      ap (λ x. x.1)
        (reconcile_ready (reported_resource in_memory m.node hb j)
          (read_back (with_heartbeat m.node hb)) s j back (IsReady-node now name g m p c) f
          (rw own (λ x. cc (x, e))))
      ∙ rw own refl
