-- ===== src/Http/Serving.antt =====
-- router.go: the router's settings, `ServeHTTP`, `Middleware` and `handleWebsocketConnection`.
use velaros.Base.{
  ℕ, suc, Bool, Option, none, some, List, [], ◌∷◌, Text, codes, text_eq, if◌then◌else◌,
}
use velaros.Pattern.Defs.{Engine}
use velaros.Context.Defs.{ConnectionInfo, Environment}
use velaros.Connection.Ping.{ℤ, pos, Liveness}
use velaros.Connection.Serving.{Chains, Course, Served, handle_connection}
use velaros.Http.Wrapper.{
  Conn, WebSocketConnection, new_web_socket_connection, write, Happening, events_of,
}

-- The fields of `Router` that the setters write; a Go slice that is nil is empty.
pub record Settings : Type 0 where
  pub origins : List Text
  pub max_read_message_size : ℤ
  pub liveness : Liveness

-- `NewRouter`
abbrev pub new_settings : Settings
new_settings = record {
  origins = [];
  max_read_message_size = pos 0;
  liveness = record { ping_interval = pos 0; ping_timeout = pos 0 };
}

-- `SetOrigins`, `SetMaxReadMessageSize`, `SetPingInterval` and `SetPingTimeout`
abbrev pub set_origins : List Text → Settings → Settings
set_origins origins s = record s { origins = origins }

abbrev pub set_max_read_message_size : ℤ → Settings → Settings
set_max_read_message_size n s = record s { max_read_message_size = n }

abbrev pub set_ping_interval : ℤ → Settings → Settings
set_ping_interval d s = record s { liveness = record (s.liveness) { ping_interval = d } }

abbrev pub set_ping_timeout : ℤ → Settings → Settings
set_ping_timeout d s = record s { liveness = record (s.liveness) { ping_timeout = d } }

-- `http.Request`; `headers` is `Header.Get`.
pub record Request : Type 0 where
  pub remote_addr : Text
  pub headers : Text → Text

-- What `websocket.Accept` gives for these origins.
pub data Accepted : Type 0 where
  accepted : Conn → Accepted
  accept_error : Text → Accepted

-- The packages around: `Accept`; what `Close` on a nil connection panics with, if it does; and what
-- `http.ResponseWriter` answers to `Write` with this status and body, an error or none.
pub record Packages : Type 0 where
  pub accept : List Text → Request → Accepted
  pub close_nil : Option Text
  pub write_response : ℕ → Text → Option Text

-- What becomes of a connection: the ids that it draws, what happens to it, and what its handlers
-- have done besides before the close handlers.
pub record Life : Type 0 where
  pub socket_id : Text
  pub open_id : Text
  pub close_id : Text
  pub happenings : List Happening
  pub log : List ℕ

abbrev pub course_of : Life → Course
course_of l = record {
  socket_id = l.socket_id;
  open_id = l.open_id;
  close_id = l.close_id;
  events = events_of l.happenings;
  log = l.log;
}

-- What is done for a request: it is served on a connection that was accepted for these origins,
-- with the argument of `SetReadLimit` if that was called; it is answered with a status and a body;
-- `Next` of the router around is called; or the goroutine panics.
pub data Response : Type 0 where
  served : List Text → Option ℕ → Served → Response
  answered : ℕ → Text → Response
  passed_on : Response
  panics : Text → Response

abbrev pub is_websocket_upgrade_request : Request → Bool
is_websocket_upgrade_request req = text_eq (req.headers (codes "Upgrade")) (codes "websocket")

abbrev pub origins_or_all : List Text → List Text
origins_or_all [] = codes "*" ∷ []
origins_or_all (o ∷ os) = o ∷ os

abbrev pub read_limit : ℤ → Option ℕ
read_limit (pos (suc n)) = some (suc n)
read_limit _ = none

abbrev pub info_of : Request → ConnectionInfo
info_of req = record { remote_addr = req.remote_addr; headers = req.headers }

abbrev pub environment : Engine → WebSocketConnection → Request → Environment
environment re c req = record { engine = re; write = write c; connection_info = some (info_of req) }

abbrev pub panic_of : Option Text → Text → Text
panic_of none e = e
panic_of (some why) e = why

module _ (re : Engine) (packages : Packages) (settings : Settings) (chains : Chains) where
  abbrev pub on_accepted : Request → Life → Accepted → Response
  on_accepted req life (accept_error e) = panics (panic_of packages.close_nil e)
  on_accepted req life (accepted conn) =
      served (origins_or_all settings.origins) (read_limit settings.max_read_message_size) (
        handle_connection (environment re (new_web_socket_connection conn) req) chains
          (course_of life))

  -- `handleWebsocketConnection`
  unfoldable pub handle_websocket_connection : Request → Life → Response
  handle_websocket_connection req life =
      on_accepted req life (packages.accept (origins_or_all settings.origins) req)

  abbrev bad_request : Text
  bad_request = codes "Bad Request. Expected websocket upgrade request"

  abbrev pub answer : Option Text → Response
  answer none = answered 400 bad_request
  answer (some e) = panics e

  -- `ServeHTTP`
  unfoldable pub serve_http : Request → Life → Response
  unfolding handle_websocket_connection
  serve_http req life =
      if is_websocket_upgrade_request req
      then handle_websocket_connection req life
      else answer (packages.write_response 400 bad_request)

  -- The function that `Middleware` returns.
  unfoldable pub middleware : Request → Life → Response
  unfolding handle_websocket_connection
  middleware req life =
      if is_websocket_upgrade_request req then handle_websocket_connection req life else passed_on
