-- ===== src/Http/Wrapper.antt =====
-- socket_connection.go: `WebSocketConnection` on the connection of the WebSocket package.
use velaros.Base.{ℕ, Option, none, List, [], ◌∷◌, Text}
use velaros.Socket.Defs.{Bytes, Status, CloseSource, MessageType, SocketMessage, Socket}
use velaros.Connection.Ping.{ℤ, Pinger}
use velaros.Connection.Reading.{ReadError, Event, message, failure, close_call, work}

-- What a `Read` of the package gives: the type and the bytes of a message, or an error.
pub data Frame : Type 0 where
  frame : MessageType → Bytes → Frame
  read_error : ReadError → Frame

-- `*websocket.Conn`: what its methods answer, an error or none; `ping` at the n-th call.
pub record Conn : Type 0 where
  pub write : MessageType → Bytes → Option Text
  pub close : Status → Text → Option Text
  pub ping : ℤ → ℕ → Option Text

pub record WebSocketConnection : Type 0 where
  pub web_socket_connection : Conn

abbrev pub new_web_socket_connection : Conn → WebSocketConnection
new_web_socket_connection conn = record { web_socket_connection = conn }

-- `Read`: the bytes are the message's raw data.
abbrev pub read : Frame → Event
read (frame type bytes) =
    message (record { type = type; raw_data = bytes; message_data = []; meta = none })
read (read_error e) = failure e

-- `Write` hands on the message's type and data.
abbrev pub write : WebSocketConnection → SocketMessage → Option Text
write c m = c.web_socket_connection.write m.type m.message_data

-- `Close`
abbrev pub close : WebSocketConnection → Status → Text → Option Text
close c status reason = c.web_socket_connection.close status reason

-- `Ping`
abbrev pub pinger : WebSocketConnection → Pinger
pinger c = c.web_socket_connection.ping

-- What happens to a connection: a `Read` of the package returns, and what comes from elsewhere.
pub data Happening : Type 0 where
  arrives : Frame → Happening
  closes : Status → Text → CloseSource → Happening
  works : Socket → Happening

abbrev pub event_of : Happening → Event
event_of (arrives f) = read f
event_of (closes status reason source) = close_call status reason source
event_of (works s) = work s

abbrev pub events_of : List Happening → List Event
events_of [] = []
events_of (h ∷ hs) = event_of h ∷ events_of hs
