-- ===== src/StateApi/Server.antt =====
-- internal/state-api/server.go: NewServer, the routes, and Start. The router of chi and the server
-- of net/http are parameters.
pub mod Routing
use Prim.Native.String as Text
use galera_k8s_operator.Base.{
  ℕ, String, ◌≡◌, ◌⊎◌, List, [], ◌∷◌, Option, none, some, Bool, not, if◌then◌else◌, Error, wrap,
  Result, ok, err,
}
use galera_k8s_operator.Entities.Agent.{TimeText}
use galera_k8s_operator.Storage.Interface.{ResourceStorage}
use galera_k8s_operator.StateApi.{Request, Response, handle_heartbeat, handle_target_state}

-- The middleware, in the order of the calls of Use; the timeout is in seconds.
pub data Middleware : Type 0 where
  request_id : Middleware
  logger : Middleware
  recoverer : Middleware
  timeout : ℕ → Middleware

pub data Handler : Type 0 where
  heartbeat_handler : Handler
  target_state_handler : Handler

pub record Route : Type 0 where
  pub method : String
  pub pattern : String
  pub handler : Handler

-- What was registered: the middleware, and under one prefix the routes.
pub record Router : Type 0 where
  pub middleware : List Middleware
  pub prefix : String
  pub routes : List Route

-- setupRoutes
unfoldable pub setup_routes : Router
setup_routes = record {
  middleware = request_id ∷ logger ∷ recoverer ∷ timeout 60 ∷ [];
  prefix = "/api/v1";
  routes =
      record { method = "POST"; pattern = "/heartbeat"; handler = heartbeat_handler }
      ∷ record { method = "GET"; pattern = "/target-state"; handler = target_state_handler }
      ∷ [];
}

pub record Server (S L : Type 0) : Type 0 where
  pub storage : S
  pub l : L
  pub router : Router

unfoldable pub new_server : {S L : Type 0} → L → S → Server S L
new_server l storage = record { storage = storage; l = l; router = setup_routes }

-- The http.Server that Start makes; the times are in seconds.
pub record HttpServer : Type 0 where
  pub addr : String
  pub handler : Router
  pub read_timeout : ℕ
  pub write_timeout : ℕ
  pub idle_timeout : ℕ

unfoldable pub http_server : {S L : Type 0} → String → Server S L → HttpServer
http_server port s = record {
  addr = Text.◌++◌ ":" port;
  handler = s.router;
  read_timeout = 5;
  write_timeout = 10;
  idle_timeout = 15;
}

-- Start, from what ListenAndServe returns; `is_server_closed` is the test by errors.Is.
unfoldable pub start_server :
    {S L : Type 0}
    → (Error → Bool)
    → (HttpServer → Result (Unit {0}))
    → String
    → Server S L
    → Result (Unit {0})
start_server is_server_closed listen_and_serve port s =
    elim (listen_and_serve (http_server port s)) [
      | ok u ↦ ok tt
      | err e ↦ if not (is_server_closed e) then err (wrap "server failed" e) else ok tt
    ]

-- A route for a method and a path
abbrev pub Registers : Router → String → String → Handler → Type 0
Registers r method path h = registered r.routes
  where
    registered : List Route → Type 0
    registered [] = ⊥
    registered (route ∷ routes) =
        ((route.method ≡ method) × (Text.◌++◌ r.prefix route.pattern ≡ path) × (route.handler ≡ h))
        ⊎ registered routes

-- What the documentation of chi says of routes without parameters: a request goes to the handler
-- of a route that was registered for its method and its path, and to no handler without one.
pub record IsDispatch (dispatch : Router → String → String → Option Handler) (r : Router)
    : Type 0 where
  pub served :
      (method path : String) (h : Handler)
      → Registers r method path h
      → dispatch r method path ≡ some h
  pub only :
      (method path : String) (h : Handler)
      → dispatch r method path ≡ some h
      → Registers r method path h

-- `dispatch` is the router's search, and `unrouted` what it answers when it finds none.
module _ ⦃rfc : TimeText⦄ (st : ResourceStorage)
    (dispatch : Router → String → String → Option Handler)
    (unrouted : String → String → Response) where
  open st use {S}

  -- ServeHTTP of the router, for a request for a path
  unfoldable pub serve : Router → ℕ → String → Request → S → Response × S
  serve router now path req s = elim (dispatch router req.method path) [
    | none ↦ (unrouted req.method path, s)
    | some heartbeat_handler ↦ handle_heartbeat st now req s
    | some target_state_handler ↦ (handle_target_state st req s, s)
  ]
