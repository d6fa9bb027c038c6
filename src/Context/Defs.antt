-- ===== src/Context/Defs.antt =====
-- context.go, handler.go, handler_node.go, route_descriptor.go: contexts, handlers and chains.
use velaros.Base.{ℕ, Bool, Option, List, Text}
use velaros.Base.Maps.{TextMap}
use velaros.Pattern.Defs.{Pattern, Engine}
use velaros.Pattern.Matching.{MessageParams}
use velaros.Socket.Defs.{
  Value, Bytes, Status, CloseSource, MessageType, InboundMessage, OutboundMessage, SocketMessage,
  Socket,
}

-- `ConnectionInfo`; `headers` is `http.Header.Get` on the headers, an empty text for none.
pub record ConnectionInfo : Type 0 where
  pub remote_addr : Text
  pub headers : Text → Text

-- What the code takes from outside: the regular expressions, the connection's `Write`, which
-- answers with an error or none, and what is known of the connection.
pub record Environment : Type 0 where
  pub engine : Engine
  pub write : SocketMessage → Option Text
  pub connection_info : Option ConnectionInfo

pub data Decoded : Type 0 where
  decoded : Value → Decoded
  decode_error : Text → Decoded

pub data Encoded : Type 0 where
  encoded : Bytes → Encoded
  encode_error : Text → Encoded

abbrev pub Unmarshaler : Type 0
Unmarshaler = InboundMessage → Decoded

abbrev pub Marshaller : Type 0
Marshaller = OutboundMessage → Encoded

-- The `context.Context` that a call waits with: it lasts as long as the connection, or it ends with
-- that error before a message comes.
pub data Patience : Type 0 where
  lasting : Patience
  ending : Text → Patience

-- The calls that a handler makes on its context, but for `Next`. `effect` is anything that the
-- handler does outside of the framework; `set_error` writes the field `Error`.
pub data Op : Type 0 where
  effect : ℕ → Op
  set : Text → Value → Op
  get : Text → Op
  must_get : Text → Op
  delete : Text → Op
  set_on_socket : Text → Value → Op
  get_from_socket : Text → Op
  must_get_from_socket : Text → Op
  delete_from_socket : Text → Op
  set_error : Option Text → Op
  get_error : Op
  message_id path raw_data message_data params : Op
  meta : Text → Op
  set_message_id : Text → Op
  set_message_path : Text → Op
  set_message_raw_data : Bytes → Op
  set_message_data : Bytes → Op
  set_message_meta : Option (TextMap Value) → Op
  set_message_unmarshaler : Unmarshaler → Op
  set_message_marshaller : Marshaller → Op
  socket_id remote_addr message_type : Op
  header : Text → Op
  send : Value → Op
  receive : Op
  receive_into : Op
  request : Value → Op
  request_into : Value → Op
  receive_with_context : Patience → Op
  receive_into_with_context : Patience → Op
  request_with_context : Patience → Value → Op
  request_into_with_context : Patience → Value → Op
  close_with_status : Status → Text → Op
  close_status : Op

-- What a call gives back.
pub data Reply : Type 0 where
  unit : Reply
  value : Option Value → Reply
  text : Text → Reply
  bytes : Bytes → Reply
  error : Option Text → Reply
  map_of : MessageParams → Reply
  type_of : MessageType → Reply
  closing : Status → Text → CloseSource → Reply

-- The body of a handler: it returns, panics with an error and the trace that `debug.Stack` would
-- show, calls `Next`, or calls a method and goes on with the reply.
pub data Script : Type 0 where
  ret : Script
  panic : Text → Text → Script
  next : Script → Script
  call : Op → (Reply → Script) → Script

pub record RouteDescriptor : Type 0 where
  pub pattern : Pattern
  pub metadata : Option Value

pub data BindType : Type 0 where
  normal_bind_type open_bind_type close_bind_type : BindType

-- A handler is a value of type `any`. `func` is a `HandlerFunc` or a `func(*Context)`, `object` a
-- value with the methods `Handle`, `HandleOpen` and `HandleClose` as far as given, `router` a
-- `*Router` with its three chains and its descriptors as they are when it is mounted, `other` anything
-- else. The number is the pointer that `reflect` shows; a value of a struct type has none. A router is
-- not mounted in itself, and nothing is registered on it once it is mounted. A node has an address, its bind type, pattern, handlers and `Next`.
mutual
  pub data Handler : Type 0 where
    func : ℕ → Script → Handler
    object : Option ℕ → Option Script → Option Script → Option Script → Handler
    router : ℕ → Node → Node → Node → List RouteDescriptor → Handler
    other : Option ℕ → Handler

  pub data Handlers : Type 0 where
    no_handlers : Handlers
    handler : Handler → Handlers → Handlers

  pub data Node : Type 0 where
    nil : Node
    node : ℕ → BindType → Option Pattern → Handlers → Node → Node

-- The mutex of a context between two calls. A method that panics at a message that is gone leaves it
-- locked, for reading or for writing.
pub data Mutex : Type 0 where
  unlocked read_locked write_locked : Mutex

-- The mutable fields of `Context`. `cancelled` says whether `cancelCtx` was called.
pub record Context : Type 0 where
  pub message : Option InboundMessage
  pub params : MessageParams
  pub message_type : MessageType
  pub message_unmarshaler : Option Unmarshaler
  pub message_marshaller : Option Marshaller
  pub current_handler_node : Node
  pub current_handler_node_matches : Bool
  pub associated_values : TextMap Value
  pub current_handler_index : ℕ
  pub current_handler : Option Handler
  pub next_beyond_end : Bool
  pub receiver_chan : Option ℕ
  pub owns_receiver : Bool
  pub first_receive_done : Bool
  pub err : Option Text
  pub error_stack : Text
  pub cancelled : Bool
  pub mu : Mutex

-- The context at work, its parents from the nearest on, the socket, and the effects so far, the
-- latest first.
pub record World : Type 0 where
  pub ctx : Context
  pub parents : List Context
  pub socket : Socket
  pub effects : List ℕ

-- A call returns, panics with an error and a trace, or waits for another goroutine.
pub data Outcome : Type 0 where
  returned : World → Outcome
  panicked : Text → Text → World → Outcome
  blocked : World → Outcome
  out_of_fuel : Outcome

infixl 5 ◌>>=◌
abbrev pub ◌>>=◌ : Outcome → (World → Outcome) → Outcome
returned w >>= f = f w
panicked e trace w >>= f = panicked e trace w
blocked w >>= f = blocked w
out_of_fuel >>= f = out_of_fuel
