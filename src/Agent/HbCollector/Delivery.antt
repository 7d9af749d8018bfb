-- ===== src/Agent/HbCollector/Delivery.antt =====
-- A tick of the collector whose client reaches handleHeartbeat of internal/state-api/server.go.
use galera_k8s_operator.Base.{
  ℤ, ℕ, String, ◌≡◌, ◌≢◌, refl, ap, ◌∙◌, Option, none, some, Result, ok, IsInt64, assign,
}
use galera_k8s_operator.Json.{Json, RawMessage, raw, str}
use galera_k8s_operator.Entities.Agent.{TimeText, State, zero_state}
use galera_k8s_operator.Entities.AgentJson.{encode_state, decode_state, state_object}
use galera_k8s_operator.Entities.AgentJson.RoundTrip.{decode_state-encode_state}
use galera_k8s_operator.Entities.General.{GeneralTargetState}
use galera_k8s_operator.Entities.Node as Node_v1
use galera_k8s_operator.Entities.Node.{NodeTargetState}
use galera_k8s_operator.Entities.Node.RoundTrip.{from_general_names}
use galera_k8s_operator.Storage.{Storage, resource_key}
use galera_k8s_operator.Storage.Laws.{stored, update_resource_lem}
use galera_k8s_operator.Storage.Laws.Invariant.{IsValid}
use galera_k8s_operator.Storage.Interface.{in_memory}
use galera_k8s_operator.StateApi.{Request, handle_heartbeat, record_heartbeat}
use galera_k8s_operator.StateApi.Heartbeats.{reported_resource, record_heartbeat_known}
use galera_k8s_operator.Agent.HbCollector.{Sight, HbCollector, seen}
use galera_k8s_operator.Agent.HbCollector.Laws.{encode_unstamped, seen_fits, collect_lem}
use galera_k8s_operator.Agent.HbCollector.Send.{send, tick}

module _ ⦃rfc : TimeText⦄ where
  -- A network that brings each Post to the handler, at a time of the server's clock.
  abbrev pub status_of : Option ℕ → ℕ
  status_of none = 200
  status_of (some code) = code

  abbrev pub deliver : ℕ → String → RawMessage → Storage → Result ℕ × Storage
  deliver now url body s =
      let (r, s') =
        handle_heartbeat in_memory now (record { method = "POST"; body = body; query_name = "" })
          s in
      (ok (status_of r.status), s')

  -- A request whose body decodes is recorded as the report, stamped.
  pub handled :
      (now : ℕ) (req : Request) (hb : State) (j : Json) (s : Storage)
      → req.method ≡ "POST"
      → req.body ≡ raw j
      → decode_state j zero_state ≡ ok hb
      → handle_heartbeat in_memory now req s
        ≡ record_heartbeat in_memory (record hb { timestamp = now }) s
  unfolding handle_heartbeat
  handled now req hb j s m b d = rw (m, b, d, handle_heartbeat)

  -- What a report leaves in the storage.
  pub written :
      (hb : State) (s : Storage) (gen : GeneralTargetState) (node : NodeTargetState) (j : Json)
      → IsValid s
      → hb.name ≢ ""
      → stored Node_v1.kind hb.name s ≡ some gen
      → gen.name ≡ hb.name
      → Node_v1.from_general gen ≡ ok node
      → encode_state hb ≡ ok j
      → (record_heartbeat in_memory hb s).1 ≡ record {
        gr =
            assign (resource_key Node_v1.kind hb.name) (reported_resource in_memory node hb j) s.gr;
      }
  written hb s gen node j valid named found own decoded e =
      let (name_same, kind_same) = from_general_names gen node decoded in
      let key : resource_key node.kind node.name ≡ resource_key Node_v1.kind hb.name =
        rw (kind_same, name_same, own) refl in
      let g = reported_resource in_memory node hb j in
      ap (λ x. x.1)
        (record_heartbeat_known in_memory hb s gen node j valid named found own decoded e)
      ∙ ap (λ x. x.1)
          (update_resource_lem g s (record { spec_IsJson = tt; meta_IsJson = tt })
            (rw (key, found) (λ x. cc x)))
      ∙ rw key refl

  module _ (atoi : String → Result ℤ)
      (atoi_fits : (s : String) (i : ℤ) → atoi s ≡ ok i → IsInt64 i) where
    -- The report of a tick, as the server stamps it.
    abbrev pub stamped : ℕ → HbCollector → String → Sight → State
    stamped now c status v = record (seen atoi c status v) { timestamp = now }

    sent :
        (now : ℕ) (url : String) (hb : State) (s : Storage)
        → hb.timestamp ≡ 0
        → IsInt64 hb.wsrep_info.wsrep_cluster_size
        → (send (deliver now) url hb s).1
          ≡ (record_heartbeat in_memory (record hb { timestamp = now }) s).1
    unfolding send
    sent now url hb s t h =
        let e = encode_unstamped hb t in
        let d = decode_state-encode_state hb (state_object hb (str "0001-01-01T00:00:00Z")) h e in
        rw
          (
            e,
            send,
            handled now
                (record {
                  method = "POST";
                  body = raw (state_object hb (str "0001-01-01T00:00:00Z"));
                  query_name = "";
                })
                hb _ s refl refl d,
          )
          refl

    -- Where Atoi returns numbers of 64 bits, a tick whose Post reaches the server, of an agent whose
    -- name is that of a node stored in a valid storage, keeps the report that it made, and
    -- leaves that report in the node, stamped with the server's time, the node's other fields and
    -- all other resources as they were.
    pub tick_recorded :
        (now : ℕ) (url status : String) (v : Sight) (c : HbCollector) (s : Storage)
        (gen : GeneralTargetState) (node : NodeTargetState) (j : Json)
        → IsValid s
        → c.name ≢ ""
        → stored Node_v1.kind c.name s ≡ some gen
        → gen.name ≡ c.name
        → Node_v1.from_general gen ≡ ok node
        → encode_state (stamped now c status v) ≡ ok j
        → tick (deliver now) atoi url status v c s ≡ (
          record c { last_state = some (seen atoi c status v) },
          record {
            gr =
                assign
                  (resource_key Node_v1.kind c.name)
                  (reported_resource in_memory node (stamped now c status v) j)
                  s.gr;
          },
        )
    unfolding tick
    tick_recorded now url status v c s gen node j valid named found own decoded e =
        let own_name : (stamped now c status v).name ≡ c.name = unfold seen in refl in
        let g = reported_resource in_memory node (stamped now c status v) j in
        rw (collect_lem atoi atoi_fits status v c, tick)
          (ap (λ x. (record c { last_state = some (seen atoi c status v) }, x))
            (sent now url (seen atoi c status v) s (unfold seen in refl)
                (seen_fits atoi atoi_fits c status v)
              ∙ written (stamped now c status v) s gen node j valid (unfold seen in named)
                  (unfold seen in found) (unfold seen in own) decoded e
              ∙ ap {B = Storage} (λ x. record { gr = assign (resource_key Node_v1.kind x) g s.gr })
                  own_name))
