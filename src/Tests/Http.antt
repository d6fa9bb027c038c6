-- ===== src/Tests/Http.antt =====
-- A request that upgrades, and the connection that follows.
use velaros.Base.{◌≡◌, refl, false, none, some, List, [], ◌∷◌, Text, codes, text_eq, if◌then◌else◌}
use velaros.Socket.Defs.{message_text, message_binary, status_normal_closure, client_close_source}
use velaros.Context.Defs.{nil}
use velaros.Context.Order.{candidates}
use velaros.Context.Closing.{Closes}
use velaros.Connection.Message.{handle_lifecycle, run_next}
use velaros.Connection.Ping.{pos}
use velaros.Connection.Reading.{Closed}
use velaros.Connection.Serving.{Chains, Served}
use velaros.Connection.Serving.Ending.{Ends}
use velaros.Http.Wrapper.{Conn, frame, read_error, Happening, arrives}
use velaros.Http.Serving.{
  Settings, new_settings, set_origins, set_max_read_message_size, Request, accepted, accept_error,
  Packages, Life, served, answered, panics, serve_http, middleware,
}
use velaros.Http.Upgrading.{raw_message, serve_http-Ends}
use velaros.Tests.Fixtures.{engine, engine-Documented, runs}
use velaros.Tests.Chains.{cleanups, close_chain}

abbrev conn : Conn
conn = record { write = λ t b. none; close = λ s r. none; ping = λ d n. none }

-- The package accepts clients for one origin only.
abbrev here : Text
here = codes "https://a.example"

abbrev packages : Packages
packages = record {
  accept = λ os req. elim os [
    | [] ↦ accept_error (codes "origin")
    | o ∷ os' ↦ if text_eq o here then accepted conn else accept_error (codes "origin")
  ];
  close_nil = some (codes "nil pointer");
  write_response = λ status body. none;
}

abbrev settings : Settings
settings = set_max_read_message_size (pos 4096) (set_origins (here ∷ []) new_settings)

abbrev chains : Chains
chains = record { opens = nil; messages = nil; closes = close_chain }

abbrev request_with : Text → Request
request_with upgrade = record {
  remote_addr = codes "1.2.3.4";
  headers = λ key. if text_eq key (codes "Upgrade") then upgrade else [];
}

abbrev closed_by_client : Closed
closed_by_client = record {
  status = status_normal_closure;
  reason = [];
  source = client_close_source;
}

abbrev happenings : List Happening
happenings =
    arrives (frame message_text (codes "one"))
    ∷ arrives (frame message_binary (codes "two"))
    ∷ arrives (
        read_error (record {
          close_status = some status_normal_closure;
          is_canceled = false;
          is_end = false;
        }))
    ∷ arrives (frame message_text (codes "three"))
    ∷ []

abbrev life : Life
life = record {
  socket_id = codes "s";
  open_id = codes "o";
  close_id = codes "c";
  happenings = happenings;
  log = [];
}

closes : Closes (candidates engine [] close_chain []) cleanups
unfolding runs candidates
closes = (refl, (0, refl), (refl, (0, refl), (refl, (0, refl), tt)))

serve_http-Ends_example :
    (v : Served) × (serve_http engine packages settings chains
        (request_with (codes "websocket"))
        life
      ≡ served (here ∷ []) (some 4096) v)
    × (middleware engine packages settings chains (request_with (codes "websocket")) life
        ≡ serve_http engine packages settings chains (request_with (codes "websocket")) life)
    × Ends cleanups [] closed_by_client
        (raw_message message_text (codes "one") ∷ raw_message message_binary (codes "two") ∷ [])
        v
unfolding runs handle_lifecycle run_next
serve_http-Ends_example =
    serve_http-Ends engine packages settings chains (request_with (codes "websocket")) life conn
      cleanups _ []
      (record { close_status = some status_normal_closure; is_canceled = false; is_end = false }) _
      closed_by_client refl refl engine-Documented refl closes refl refl refl refl refl

-- The test for an upgrade tells upper from lower case.
other_case :
    serve_http engine packages settings chains (request_with (codes "WebSocket")) life
    ≡ answered 400 (codes "Bad Request. Expected websocket upgrade request")
unfolding serve_http runs
other_case = refl

-- Where the package does not accept the client, the goroutine panics with what `Close` on a nil
-- connection panics with.
not_accepted :
    serve_http engine packages new_settings chains (request_with (codes "websocket")) life
    ≡ panics (codes "nil pointer")
unfolding serve_http runs
not_accepted = refl
