-- ===== src/Http/Upgrading.antt =====
-- router.go and socket_connection.go: from the request to the end of the connection.
use velaros.Base.{
  ℕ, zero, suc, Text, codes, text_eq_iff, ◌≡◌, refl, ap, ◌∙◌, true, Option, none, some, List, [],
  ◌∷◌, ◌++◌,
}
use velaros.Pattern.Defs.{Engine}
use velaros.Pattern.Matching.Agreement.{Documented}
use velaros.Socket.Defs.{Bytes, MessageType, SocketMessage}
use velaros.Socket.Ops
use velaros.Context.Defs.{World, returned}
use velaros.Context.Order.{candidates}
use velaros.Context.Closing.{Cleanup, Closes}
use velaros.Connection.Ping.{ℤ, pos, negsuc}
use velaros.Connection.Message.{handle_lifecycle}
use velaros.Connection.Reading.{
  ReadError, Closed, failure_reason, first_failure, before_failure, messages, reasons, HasFirst,
}
use velaros.Connection.Serving.{Chains, Served, handle_connection}
use velaros.Connection.Serving.Ending.{Ends, IsFirst, IsCloseChain, handle_connection-Ends}
use velaros.Http.Wrapper.{
  Conn, new_web_socket_connection, frame, read_error, Happening, arrives, closes, works, events_of,
}
use velaros.Http.Serving.{
  Settings, Request, accepted, Packages, Life, course_of, served, origins_or_all, read_limit,
  environment, is_websocket_upgrade_request, serve_http, middleware,
}

-- The origins that a connection is accepted for: those that were set, or all.
abbrev pub allowed : List Text → List Text
allowed [] = codes "*" ∷ []
allowed (o ∷ os) = o ∷ os

-- The limit for a message, or none where no positive one was set.
abbrev pub limit_of : ℤ → Option ℕ
limit_of (pos zero) = none
limit_of (pos (suc n)) = some (suc n)
limit_of (negsuc n) = none

origins_or_all-allowed : (origins : List Text) → origins_or_all origins ≡ allowed origins
origins_or_all-allowed [] = refl
origins_or_all-allowed (o ∷ os) = refl

read_limit-limit_of : (n : ℤ) → read_limit n ≡ limit_of n
read_limit-limit_of (pos zero) = refl
read_limit-limit_of (pos (suc n)) = refl
read_limit-limit_of (negsuc n) = refl

-- The first error of `Read`.
abbrev pub first_error : List Happening → Option ReadError
first_error [] = none
first_error (arrives (read_error e) ∷ hs) = some e
first_error (_ ∷ hs) = first_error hs

-- A message with a frame's bytes as its raw data, and nothing else.
abbrev pub raw_message : MessageType → Bytes → SocketMessage
raw_message type bytes = record { type = type; raw_data = bytes; message_data = []; meta = none }

-- The messages that arrive before the first error, and the reasons to close from elsewhere.
abbrev pub arrived : List Happening → List SocketMessage
arrived [] = []
arrived (arrives (read_error e) ∷ hs) = []
arrived (arrives (frame type bytes) ∷ hs) = raw_message type bytes ∷ arrived hs
arrived (_ ∷ hs) = arrived hs

abbrev pub closings : List Happening → List Closed
closings [] = []
closings (arrives (read_error e) ∷ hs) = []
closings (closes status reason source ∷ hs) =
    (record { status = status; reason = reason; source = source }) ∷ closings hs
closings (_ ∷ hs) = closings hs

first_failure-events_of : (hs : List Happening) → first_failure (events_of hs) ≡ first_error hs
first_failure-events_of [] = refl
first_failure-events_of (arrives (read_error e) ∷ hs) = refl
first_failure-events_of (arrives (frame _ _) ∷ hs) = first_failure-events_of hs
first_failure-events_of (closes _ _ _ ∷ hs) = first_failure-events_of hs
first_failure-events_of (works _ ∷ hs) = first_failure-events_of hs

messages-events_of : (hs : List Happening) → messages (before_failure (events_of hs)) ≡ arrived hs
messages-events_of [] = refl
messages-events_of (arrives (read_error e) ∷ hs) = refl
messages-events_of (arrives (frame type bytes) ∷ hs) =
    ap (◌∷◌ (raw_message type bytes)) (messages-events_of hs)
messages-events_of (closes _ _ _ ∷ hs) = messages-events_of hs
messages-events_of (works _ ∷ hs) = messages-events_of hs

reasons-events_of : (hs : List Happening) → reasons (before_failure (events_of hs)) ≡ closings hs
reasons-events_of [] = refl
reasons-events_of (arrives (read_error e) ∷ hs) = refl
reasons-events_of (arrives (frame _ _) ∷ hs) = reasons-events_of hs
reasons-events_of (closes status reason source ∷ hs) =
    ap (◌∷◌ (record { status = status; reason = reason; source = source })) (reasons-events_of hs)
reasons-events_of (works _ ∷ hs) = reasons-events_of hs

module _ (re : Engine) (packages : Packages) (settings : Settings) (chains : Chains) (req : Request)
    (life : Life) where
  -- What both ways of serving a request do where it is one to upgrade and the package accepts it.
  upgraded :
      (conn : Conn)
      → is_websocket_upgrade_request req ≡ true
      → packages.accept (origins_or_all settings.origins) req ≡ accepted conn
      → (serve_http re packages settings chains req life
          ≡ served (origins_or_all settings.origins) (read_limit settings.max_read_message_size) (
              handle_connection
                (environment re (new_web_socket_connection conn) req)
                chains
                (course_of life)))
        × (middleware re packages settings chains req life
            ≡ serve_http re packages settings chains req life)
  unfolding serve_http middleware
  upgraded conn upgrade accepts = rw (upgrade, accepts) (refl, refl)

  -- From the request to the end: a request whose header Upgrade is websocket and that the package
  -- accepts, for the origins that were set, or for all where none were, is served by ServeHTTP and by the
  -- function of Middleware alike, with the read limit that was set, if it is positive, and without one
  -- otherwise. If the open handlers return, on an open socket or one that they closed, and the
  -- package's Read ends with an error that the code knows, every cleanup of the close chain runs, in
  -- order, the connection is closed with the status and the reason of the first close, and the messages
  -- that were started are those of the frames before the error, in order, with their bytes as raw data.
  -- The close handlers are functions that do something and then return or panic, and the engine behaves
  -- as package regexp documents.
  pub serve_http-Ends :
      (conn : Conn) (ls : List Cleanup) (w : World) (opened : List Closed) (e : ReadError)
      (c' c : Closed)
      → req.headers (codes "Upgrade") ≡ codes "websocket"
      → packages.accept (allowed settings.origins) req ≡ accepted conn
      → Documented re
      → IsCloseChain chains.closes
      → Closes (candidates re [] chains.closes []) ls
      → handle_lifecycle
          (environment re (new_web_socket_connection conn) req)
          life.open_id
          chains.opens
          (Ops.new_socket life.socket_id)
          []
        ≡ returned w
      → HasFirst opened w.socket
      → first_error life.happenings ≡ some e
      → failure_reason e.close_status e.is_canceled e.is_end ≡ some c'
      → IsFirst c (opened ++ (closings life.happenings ++ c' ∷ []))
      → (v : Served) × (serve_http re packages settings chains req life
          ≡ served (allowed settings.origins) (limit_of settings.max_read_message_size) v)
        × (middleware re packages settings chains req life
            ≡ serve_http re packages settings chains req life)
        × Ends ls life.log c (arrived life.happenings) v
  serve_http-Ends conn ls w opened e c' c upgrade accepts documented chain h opens before fails
        known first =
      let env = environment re (new_web_socket_connection conn) req in
      let (serves, same) =
        upgraded conn ((text_eq_iff _ _).1 upgrade)
          (ap (λ os. packages.accept os req) (origins_or_all-allowed settings.origins) ∙ accepts) in
      let ends =
        handle_connection-Ends env chains (course_of life) ls w opened e c' c documented chain h
          opens before (first_failure-events_of life.happenings ∙ fails) known
          (rw (reasons-events_of life.happenings) first) in
      (
        handle_connection env chains (course_of life),
        serves
            ∙ rw
                (
                  origins_or_all-allowed settings.origins,
                  read_limit-limit_of settings.max_read_message_size,
                )
                refl,
        same,
        rw (messages-events_of life.happenings) at ends,
      )
