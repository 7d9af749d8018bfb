-- ===== src/StateApi/Server/Routing.antt =====
-- What a client of internal/state-api/server.go reaches, and how Start ends.
use Prim.Native.String as Text
use text.Mathlib.TextLemmas.{append_assoc}
use galera_k8s_operator.Base.{
  ℕ, String, ◌≡◌, ◌≢◌, refl, sym, ◌∙◌, ap, ◌⊎◌, inl, inr, Option, none, some, Error, Result, ok,
  err, Option-cases, Result-cases,
}
use galera_k8s_operator.Json.{Json, RawMessage, raw}
use galera_k8s_operator.Entities.Agent.{TimeText, State}
use galera_k8s_operator.Entities.AgentJson.{encode_state}
use galera_k8s_operator.Storage.Interface.{ResourceStorage, in_memory}
use galera_k8s_operator.Storage.{Storage}
use galera_k8s_operator.StateApi.{Request, Response, handle_heartbeat, handle_target_state}
use galera_k8s_operator.StateApi.Server.{
  Handler, heartbeat_handler, target_state_handler, Router, setup_routes, Registers, IsDispatch,
  serve,
}
use galera_k8s_operator.Agent.HbCollector.Send.{send}
use galera_k8s_operator.Agent.HbCollector.Delivery.{status_of, deliver}

-- The two routes
heartbeat_route : Registers setup_routes "POST" "/api/v1/heartbeat" heartbeat_handler
unfolding setup_routes
heartbeat_route = inl (refl, refl, refl)

target_state_route : Registers setup_routes "GET" "/api/v1/target-state" target_state_handler
unfolding setup_routes
target_state_route = inr (inl (refl, refl, refl))

routes_cases :
    (method path : String) (h : Handler)
    → Registers setup_routes method path h
    → ((method ≡ "POST") × (path ≡ "/api/v1/heartbeat") × (h ≡ heartbeat_handler))
      ⊎ ((method ≡ "GET") × (path ≡ "/api/v1/target-state") × (h ≡ target_state_handler))
unfolding setup_routes
routes_cases method path h (inl (a, b, c)) = inl (sym a, sym b, sym c)
routes_cases method path h (inr (inl (a, b, c))) = inr (sym a, sym b, sym c)
routes_cases method path h (inr (inr x)) = absurd x

module _ ⦃rfc : TimeText⦄ (st : ResourceStorage)
    (dispatch : Router → String → String → Option Handler) (unrouted : String → String → Response)
    (d : IsDispatch dispatch setup_routes) where
  open st use {S}

  pub target_state_served :
      (now : ℕ) (req : Request) (s : S)
      → req.method ≡ "GET"
      → serve st dispatch unrouted setup_routes now "/api/v1/target-state" req s
        ≡ (handle_target_state st req s, s)
  unfolding serve
  target_state_served now req s e =
      let found : dispatch setup_routes req.method "/api/v1/target-state"
          ≡ some target_state_handler =
        ap (λ m. dispatch setup_routes m "/api/v1/target-state") e
        ∙ d.served "GET" "/api/v1/target-state" target_state_handler target_state_route in
      rw (found, serve)

  -- If the router's search is as chi documents it: a POST of /api/v1/heartbeat is answered by
  -- handleHeartbeat, a GET of /api/v1/target-state by handleTargetState, and every other request by
  -- the router itself, with the storage as it was.
  pub serve_cases :
      (now : ℕ) (path : String) (req : Request) (s : S)
      → ((req.method ≡ "POST")
          × (path ≡ "/api/v1/heartbeat")
          × (serve st dispatch unrouted setup_routes now path req s
              ≡ handle_heartbeat st now req s))
        ⊎ ((req.method ≡ "GET")
            × (path ≡ "/api/v1/target-state")
            × (serve st dispatch unrouted setup_routes now path req s
                ≡ (handle_target_state st req s, s)))
        ⊎ (¬ ((req.method ≡ "POST") × (path ≡ "/api/v1/heartbeat"))
            × ¬ ((req.method ≡ "GET") × (path ≡ "/api/v1/target-state"))
            × (serve st dispatch unrouted setup_routes now path req s
                ≡ (unrouted req.method path, s)))
  unfolding serve
  serve_cases now path req s = elim (Option-cases (dispatch setup_routes req.method path)) [
    | inl e ↦ inr (
        inr (
          (λ (a, b).
              cc (e, d.served "POST" "/api/v1/heartbeat" heartbeat_handler heartbeat_route, a, b)),
          (λ (a, b). cc (
            e,
            d.served "GET" "/api/v1/target-state" target_state_handler target_state_route,
            a,
            b,
          )),
          rw (e, serve),
        ))
    | inr (h, e) ↦ elim (routes_cases req.method path h (d.only req.method path h e)) [
      | inl (a, b, c) ↦ inl (a, b, rw (e, serve, c))
      | inr (a, b, c) ↦ inr (inl (a, b, rw (e, serve, c)))
    ]
  ]

module _ ⦃rfc : TimeText⦄ (dispatch : Router → String → String → Option Handler)
    (unrouted : String → String → Response) (d : IsDispatch dispatch setup_routes) (host : String)
    (now : ℕ) (post : String → RawMessage → Storage → Result ℕ × Storage) where
  abbrev posted : RawMessage → Request
  posted body = record { method = "POST"; body = body; query_name = "" }

  -- The client's Post to this path of the host reaches the router, and brings back its status.
  abbrev pub IsPosted : String → Type 0
  IsPosted path =
      (body : RawMessage) (s : Storage)
      → let (r, s') = serve in_memory dispatch unrouted setup_routes now path (posted body) s in
        post (Text.◌++◌ "http://" (Text.◌++◌ host path)) body s ≡ (ok (status_of r.status), s')

  heartbeat_served :
      (body : RawMessage) (s : Storage)
      → serve in_memory dispatch unrouted setup_routes now "/api/v1/heartbeat" (posted body) s
        ≡ handle_heartbeat in_memory now (posted body) s
  unfolding serve
  heartbeat_served body s =
      rw (d.served "POST" "/api/v1/heartbeat" heartbeat_handler heartbeat_route, serve)

  root_unrouted : dispatch setup_routes "POST" "/heartbeat" ≡ none
  root_unrouted = elim (Option-cases (dispatch setup_routes "POST" "/heartbeat")) [
    | inl e ↦ e
    | inr (h, e) ↦ elim (routes_cases "POST" "/heartbeat" h (d.only "POST" "/heartbeat" h e)) [
      | inl (a, b, c) ↦ absurd (paths_differ b)
      | inr (a, b, c) ↦ absurd (methods_differ a)
    ]
  ]
    where
      paths_differ : ◌≢◌ {A = String} "/heartbeat" "/api/v1/heartbeat"
      paths_differ e = cc e

      methods_differ : ◌≢◌ {A = String} "POST" "GET"
      methods_differ e = cc e

  -- What is sent, by what the client's Post does.
  sent_by :
      (client : String → RawMessage → Storage → Result ℕ × Storage) (state_url : String)
      (hb : State) (s t : Storage) (j : Json) (code : ℕ)
      → encode_state hb ≡ ok j
      → client (Text.◌++◌ "http://" (Text.◌++◌ state_url "/heartbeat")) (raw j) s ≡ (ok code, t)
      → send client state_url hb s ≡ (ok tt, t)
  unfolding send
  sent_by client state_url hb s t j code e f = rw (e, send, f) (ap (λ p. (ok tt, p.1)) f)

  unsent_by :
      (client : String → RawMessage → Storage → Result ℕ × Storage) (state_url : String)
      (hb : State) (s : Storage) (x : Error)
      → encode_state hb ≡ err x
      → send client state_url hb s ≡ (err x, s)
  unfolding send
  unsent_by client state_url hb s x e = rw (e, send)

  at_root :
      (body : RawMessage) (s : Storage)
      → serve in_memory dispatch unrouted setup_routes now "/heartbeat" (posted body) s
        ≡ (unrouted "POST" "/heartbeat", s)
  unfolding serve
  at_root body s = rw (root_unrouted, serve)

  -- If the router's search is as chi documents it and the client's Post reaches the router at the
  -- two paths "/api/v1/heartbeat" and "/heartbeat" of the host: an agent whose state URL is the
  -- host and "/api/v1" sends its report as if it called handleHeartbeat, and one whose state URL
  -- is the host alone never changes the storage.
  pub send_routed :
      IsPosted "/api/v1/heartbeat"
      → IsPosted "/heartbeat"
      → (hb : State) (s : Storage)
      → (send post (Text.◌++◌ host "/api/v1") hb s ≡ send (deliver now) host hb s)
        × ((send post host hb s).1 ≡ s)
  send_routed api bare hb s = elim (Result-cases (encode_state hb)) [
    | inr (x, e) ↦ (
      unsent_by post _ hb s x e ∙ sym (unsent_by (deliver now) host hb s x e),
      ap (λ p. p.1) (unsent_by post host hb s x e),
    )
    | inl (j, e) ↦
        let answer = handle_heartbeat in_memory now (posted (raw j)) s in
        let there =
          api (raw j) s ∙ ap (λ p. (ok (status_of p.0.status), p.1)) (heartbeat_served (raw j) s) in
        let root =
          bare (raw j) s ∙ ap (λ p. (ok (status_of p.0.status), p.1)) (at_root (raw j) s) in
        (
          sent_by post (Text.◌++◌ host "/api/v1") hb s answer.1 j (status_of answer.0.status) e
                (rw (append_assoc host "/api/v1" "/heartbeat") there)
              ∙ sym (sent_by (deliver now) host hb s answer.1 j (status_of answer.0.status) e refl),
          ap (λ p. p.1) (sent_by post host hb s s j _ e root),
        )
  ]
