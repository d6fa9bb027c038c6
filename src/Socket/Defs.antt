-- ===== src/Socket/Defs.antt =====
-- message.go, socket.go and status.go: messages, receivers and the socket.
use velaros.Base.{ℕ, Bool, Option, List, Text}
use velaros.Base.Maps.{TextMap}

-- A Go value of type `any`: the code stores, copies and hands it on, and never looks inside.
abbrev pub Value : Type 0
Value = ℕ

abbrev pub Bytes : Type 0
Bytes = List ℕ

-- A WebSocket close code.
abbrev pub Status : Type 0
Status = ℕ

abbrev pub status_normal_closure : Status
status_normal_closure = 1000

abbrev pub status_going_away : Status
status_going_away = 1001

pub data CloseSource : Type 0 where
  client_close_source server_close_source : CloseSource

pub data MessageType : Type 0 where
  message_text message_binary : MessageType

pub record InboundMessage : Type 0 where
  pub has_set_id : Bool
  pub has_set_path : Bool
  pub id : Text
  pub path : Text
  pub raw_data : Bytes
  pub message_data : Bytes
  pub meta : Option (TextMap Value)

pub record OutboundMessage : Type 0 where
  pub id : Text
  pub message_data : Value

pub record SocketMessage : Type 0 where
  pub type : MessageType
  pub raw_data : Bytes
  pub message_data : Bytes
  pub meta : Option (TextMap Value)

-- `node` is the address of a handler node, `ch` that of a channel.
pub record ReceiverEntry : Type 0 where
  pub node : ℕ
  pub handler_index : ℕ
  pub ch : ℕ

-- A `chan *InboundMessage` with room for one message.
pub record Channel : Type 0 where
  pub buffer : Option InboundMessage
  pub closed : Bool

-- The maps of the Go struct, its close state, and what stands behind its pointers: the receiver
-- channels and the lock channels, each with the next free address, the messages written to the
-- connection, latest first, and whether `ctx` is cancelled.
pub record Socket : Type 0 where
  pub id : Text
  pub receivers : TextMap ReceiverEntry
  pub message_id_locks : TextMap ℕ
  pub associated_values : TextMap Value
  pub closed : Bool
  pub close_status : Status
  pub close_status_source : CloseSource
  pub close_reason : Text
  pub cancelled : Bool
  pub channels : ℕ → Channel
  pub next_channel : ℕ
  pub lock_closed : ℕ → Bool
  pub next_lock : ℕ
  pub written : List SocketMessage
