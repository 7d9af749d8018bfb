-- ===== src/StateApi/Heartbeats.antt =====
-- What a report of an agent does to the storage, and what is answered.
use galera_k8s_operator.Base.{
  ℕ, String, ◌≡◌, ◌≢◌, refl, ◌∙◌, ap, false, [], none, some, ◌==◌, eq_iff, Error, Result, ok, err,
  ◌>>=◌, arith, Result-cases, inl, inr,
}
use galera_k8s_operator.Json.{Json, parse}
use galera_k8s_operator.Entities.Agent.{TimeText, State, zero_state}
use galera_k8s_operator.Entities.AgentJson.{decode_state, encode_state}
use galera_k8s_operator.Entities.General.{GeneralTargetState, zero_general}
use galera_k8s_operator.Entities.Node
use galera_k8s_operator.Entities.Node.{NodeTargetState, zero_node, node_resource, spec_object}
use galera_k8s_operator.Entities.Node.RoundTrip.{
  to_general_lem, from_general_names, to_general-eq-ok,
}
use galera_k8s_operator.Storage.Interface.{ResourceStorage}
use galera_k8s_operator.Storage.Laws.Invariant.{or_zero}
use galera_k8s_operator.StateApi.{
  Request, Response, no_response, error_text, text, http_error, write_header, or_report,
  with_heartbeat, find_node, store_heartbeat, record_heartbeat, handle_heartbeat,
}

abbrev pub answered : ℕ → Response
answered code = record { status = some code; body = [] }

kind_named : ◌≢◌ {A = String} Node.kind ""
kind_named = ground (arith, eq_iff Node.kind "")

post_test : (m : String) → m ≢ "POST" → (m == "POST") ≡ false
post_test m h = ground (arith, eq_iff m "POST")

name_test : (n m : String) → n ≡ m → m ≢ "" → (n == "") ≡ false
name_test n m e h = ground (arith, eq_iff n "")

module _ ⦃rfc : TimeText⦄ (st : ResourceStorage) where
  open st use {
    S, get, update, Valid, view, get_of_view, update_present, view_of_update, update_absent_keeps,
  }

  -- The resource of a node whose report encodes to `j`.
  abbrev pub reported_resource : NodeTargetState → State → Json → GeneralTargetState
  reported_resource node hb j =
      let n' = with_heartbeat node hb in node_resource n' (spec_object n'.spec j)

  -- A report of a stored node is answered with 200 and written into the node, whose other fields
  -- stay; no other resource changes.
  pub record_heartbeat_known :
      (hb : State) (s : S) (gen : GeneralTargetState) (node : NodeTargetState) (j : Json)
      → Valid s
      → hb.name ≢ ""
      → view Node.kind hb.name s ≡ some gen
      → gen.name ≡ hb.name
      → Node.from_general gen ≡ ok node
      → encode_state hb ≡ ok j
      → record_heartbeat st hb s ≡ (answered 200, (update (reported_resource node hb j) s).1)
  unfolding record_heartbeat find_node store_heartbeat write_header
  record_heartbeat_known hb s gen node j v named found own decoded e =
      let (name_same, kind_same) = from_general_names gen node decoded in
      let g = reported_resource node hb j in
      let present : view g.kind g.name s ≢ none =
        rw (kind_same, name_same, own, found) (λ f. cc f) in
      rw (
        get_of_view hb.name Node.kind s v named kind_named,
        found,
        name_test gen.name hb.name own named,
        decoded,
        to_general_lem (with_heartbeat node hb) j e,
        update_present g s (record { spec_IsJson = tt; meta_IsJson = tt }) present,
      )

  or_report_status :
      {A : Type 0} (a : A) (prefix : String) (r : Result A) (w : Response) (c : ℕ)
      → w.status ≡ some c
      → (or_report a prefix r w).1.status ≡ some c
  unfolding http_error
  or_report_status a prefix (ok x) w c h = h
  or_report_status a prefix (err e) w c h = rw h

  write_header_status :
      (k : ℕ) (w : Response) (c : ℕ) → w.status ≡ some c → (write_header k w).status ≡ some c
  unfolding write_header
  write_header_status k w c h = ground arith

  -- Once a status is set, the rest of the handler does not change it.
  store_heartbeat_status :
      (hb : State) (node : NodeTargetState) (w : Response) (s : S) (c : ℕ)
      → w.status ≡ some c
      → (store_heartbeat st hb node w s).0.status ≡ some c
  unfolding store_heartbeat
  store_heartbeat_status hb node w s c h = write_header_status 200 _ c (
      or_report_status tt "Bad request: " _ _ c
        (or_report_status zero_general "Bad request: " _ w c h))

  -- For the node that a missing resource is read as, the rest of the handler writes nothing.
  store_heartbeat_zero :
      (hb : State) (w : Response) (s : S)
      → view "" "" s ≡ none
      → (store_heartbeat st hb zero_node w s).1 ≡ s
  unfolding store_heartbeat
  store_heartbeat_zero hb w s unnamed =
      elim (Result-cases (Node.to_general (with_heartbeat zero_node hb))) [
        | inr (x, e) ↦ rw e (update_absent_keeps zero_general s unnamed)
        | inl (g, e) ↦
            let (j, f, same) = to_general-eq-ok (with_heartbeat zero_node hb) g e in
            rw e (update_absent_keeps g s (rw (← same) unnamed))
      ]

  find_missing :
      ((find_node (ok zero_general)).0 ≡ zero_node)
      × ((find_node (ok zero_general)).1.status ≡ some 404)
  unfolding find_node Node.from_general http_error
  find_missing = (refl, refl)

  -- In a valid storage with nothing under the empty kind and name, a report with a name that is
  -- not stored is answered with 404, and nothing is stored, though the handler goes on after its
  -- error.
  pub record_heartbeat_unknown :
      (hb : State) (s : S)
      → Valid s
      → view "" "" s ≡ none
      → hb.name ≢ ""
      → view Node.kind hb.name s ≡ none
      → ((record_heartbeat st hb s).1 ≡ s) × ((record_heartbeat st hb s).0.status ≡ some 404)
  unfolding record_heartbeat
  record_heartbeat_unknown hb s v unnamed named missing =
      let read =
        get_of_view hb.name Node.kind s v named kind_named ∙ ap (λ o. ok (or_zero o)) missing in
      rw (read, find_missing.0)
        (
          store_heartbeat_zero hb _ s unnamed,
          store_heartbeat_status hb zero_node _ s 404 find_missing.1,
        )

  -- A request that is not a POST, or whose body is no report, stores nothing.
  pub handle_heartbeat_rejected :
      (now : ℕ) (req : Request) (s : S)
      → ((req.method ≢ "POST")
          → handle_heartbeat st now req s
            ≡ (http_error (text "Method not allowed") 405 no_response, s))
        × ((e : Error)
            → req.method ≡ "POST"
            → (parse req.body >>= λ j. decode_state j zero_state) ≡ err e
            → handle_heartbeat st now req s
              ≡ (http_error (error_text "Bad request: " e) 400 no_response, s))
  unfolding handle_heartbeat
  handle_heartbeat_rejected now req s = (
    λ h. rw (post_test req.method h, handle_heartbeat),
    λ e h f. rw ((eq_iff req.method "POST").1 h, handle_heartbeat, f),
  )

  -- A report is stored with the server's own time, whatever time the agent gave.
  pub handle_heartbeat_stamped :
      (now : ℕ) (req : Request) (s : S) (hb : State)
      → req.method ≡ "POST"
      → (parse req.body >>= λ j. decode_state j zero_state) ≡ ok hb
      → handle_heartbeat st now req s ≡ record_heartbeat st (record hb { timestamp = now }) s
  unfolding handle_heartbeat
  handle_heartbeat_stamped now req s hb h f =
      rw ((eq_iff req.method "POST").1 h, handle_heartbeat, f)
