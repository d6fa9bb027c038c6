-- ===== src/Context/Calls.antt =====
-- context.go: the methods that handlers call, one by one. A method that reads the message of a
-- context whose message was handed to a receiver dereferences nil.
use velaros.Base.{
  ℕ, ◌-◌, Bool, true, false, not, ◌&&◌, Option, none, some, [], ◌++◌, Text, codes, if◌then◌else◌,
}
use velaros.Base.Maps.{TextMap, lookup}
use velaros.Pattern.Parse.{is_empty}
use velaros.Socket.Defs.{Value, MessageType, InboundMessage, Socket}
use velaros.Socket.Ops
use velaros.Context.Defs.{
  Environment, Decoded, decoded, decode_error, Encoded, encoded, encode_error, Patience, lasting,
  ending, Mutex, unlocked, read_locked, write_locked, Reply, unit, value, bytes, error,
  ConnectionInfo, Context, World, Node, Unmarshaler, Marshaller,
}

pub data Result : Type 0 where
  reply : Reply → World → Result
  panics : Text → World → Result
  waits : World → Result

abbrev pub nil_dereference : Text
nil_dereference = codes "invalid memory address or nil pointer dereference"

abbrev pub on_ctx : (Context → Context) → World → World
on_ctx f w = record w { ctx = f w.ctx }

abbrev pub on_socket : (Socket → Socket) → World → World
on_socket f w = record w { socket = f w.socket }

-- Whether a method locks the mutex of its context for reading or for writing.
pub data Locking : Type 0 where
  reading writing : Locking

-- Whether the method waits for the mutex.
abbrev pub conflicts : Locking → Mutex → Bool
conflicts l unlocked = false
conflicts reading read_locked = false
conflicts l _ = true

-- The mutex after a panic of the method.
abbrev pub left_locked : Locking → Mutex → Mutex
left_locked reading mu = read_locked
left_locked writing mu = write_locked

-- A method that works on the message. A context that has its message has its mutex unlocked: only a
-- panic at a message that is gone leaves it locked, and a message that is gone does not come back.
abbrev pub with_message :
    Locking → World → Option InboundMessage → (InboundMessage → Result) → Result
with_message l w none f =
    if conflicts l w.ctx.mu
    then waits w
    else panics nil_dereference (on_ctx (λ c. record c { mu = left_locked l c.mu }) w)
with_message l w (some m) f = f m

-- A method that locks the mutex and does not need the message.
abbrev pub guarded : Locking → World → Option InboundMessage → Result → Result
guarded l w none r = if conflicts l w.ctx.mu then waits w else r
guarded l w (some m) r = r

abbrev pub put_message : InboundMessage → World → World
put_message m w = on_ctx (λ c. record c { message = some m }) w

abbrev pub found_or_panic : Text → Option Value → World → Result
found_or_panic why none w = panics why w
found_or_panic why (some v) w = reply (value (some v)) w

-- `SetMessageID`: a context whose id is taken waits for the lock.
abbrev pub locked : World → ℕ × Bool × Socket → Result
locked w (ch, true, s) = reply unit (record w { socket = s })
locked w (ch, false, s) = if s.cancelled then reply unit w else waits w

abbrev pub set_id : Text → World → InboundMessage → Result
set_id id w m =
    let w' = put_message (record m { has_set_id = true; id = id }) w in
    locked w' (Ops.acquire_message_id_lock id w'.socket)

abbrev pub write_out : Environment → MessageType → World → Encoded → Result
write_out env type w (encode_error e) = reply (error (some e)) w
write_out env type w (encoded out) =
    reply
      (error (env.write (record { type = type; raw_data = []; message_data = out; meta = none })))
      (on_socket (Ops.send type out) w)

abbrev pub no_marshaller : Text
no_marshaller =
    codes "no message marshaller set. use SetMessageMarshaller() or add data encoder middleware"

abbrev pub marshal : Option Marshaller → Text → Value → Encoded
marshal none id v = encode_error no_marshaller
marshal (some f) id v = f (record { id = id; message_data = v })

abbrev pub no_unmarshaler : Text
no_unmarshaler =
    codes "no message unmarshaller set. use SetMessageUnmarshaler or add message parser middleware"

abbrev pub decoded_reply : Decoded → World → Result
decoded_reply (decoded v) w = reply (value (some v)) w
decoded_reply (decode_error e) w = reply (error (some e)) w

abbrev pub unmarshal : Option Unmarshaler → InboundMessage → World → Result
unmarshal none m w = reply (error (some no_unmarshaler)) w
unmarshal (some f) m w = decoded_reply (f m) w

abbrev pub node_address : Node → ℕ
node_address Node.nil = 0
node_address (Node.node a _ _ _ _) = a

abbrev pub no_id : Text
no_id =
    codes
      "cannot receive subsequent messages: client must send message with an 'id' field for multi-message conversations"

-- One round of the loop of `receiveNextMessage`: a fresh channel is registered at the running
-- handler, and the lock of the message id is released.
unfoldable pub register_receiver : InboundMessage → World → World
register_receiver m w =
    let (ch, s) = Ops.make_channel w.socket in
    let s' =
      Ops.add_receiver m.id (node_address w.ctx.current_handler_node)
        (w.ctx.current_handler_index - 1) ch s in
    record w {
      ctx = record (w.ctx) { receiver_chan = some ch; owns_receiver = true };
      socket = Ops.release_message_id_lock m.id s';
    }

abbrev pub cancelled_by : Text → World → Result
cancelled_by why w = reply (error (some (codes "receive cancelled: " ++ why))) w

abbrev pub await_in : Patience → World → Result
await_in lasting w = waits w
await_in (ending why) w = cancelled_by why w

abbrev pub await : Patience → World → Result
await p w = if w.socket.cancelled then cancelled_by (codes "context canceled") w else await_in p w

-- `receiveNextMessage`, up to where it waits for the channel. A socket that is closed already ends
-- the wait at once.
abbrev pub receive_next :
    Patience → Bool → (InboundMessage → Result) → World → InboundMessage → Result
receive_next p is_first use_message w m =
    if is_first && not (is_empty m.message_data)
    then use_message m
    else if not m.has_set_id
    then reply (error (some no_id)) w
    else await p (register_receiver m w)

-- `msg.Data`, and `unmarshalInboundMessage`
abbrev pub received : World → InboundMessage → Result
received w m = reply (bytes m.message_data) w

abbrev pub received_into : World → InboundMessage → Result
received_into w m = unmarshal w.ctx.message_unmarshaler m w

-- The mutex is unlocked again before the message is read.
abbrev pub receive_at :
    Patience → (World → InboundMessage → Result) → World → World → Option InboundMessage → Result
receive_at p use_message w w' none =
    if conflicts writing w.ctx.mu then waits w else panics nil_dereference w'
receive_at p use_message w w' (some m) =
    receive_next p (not w.ctx.first_receive_done) (use_message w') w' m

abbrev pub receive_with : Patience → (World → InboundMessage → Result) → World → Result
receive_with p use_message w =
    receive_at p use_message w (on_ctx (λ c. record c { first_receive_done = true }) w)
      w.ctx.message

-- `Send`, on the message at hand.
abbrev pub send_value : Environment → Value → World → Result
send_value env v w =
    with_message reading w w.ctx.message
      (λ m. write_out env w.ctx.message_type w (marshal w.ctx.message_marshaller m.id v))

-- `if err := c.Send(data); err != nil { return err }`
abbrev pub sent_then : (World → Result) → Result → Result
sent_then go (reply (error none) w) = go w
sent_then go r = r

-- `RequestWithContext` and `RequestIntoWithContext`: the message at hand does not count as an
-- answer.
abbrev pub request_with :
    Environment → Patience → Value → (World → InboundMessage → Result) → World → Result
request_with env p v use_message w = guarded writing w w.ctx.message (
    sent_then (receive_with p use_message)
      (send_value env v (on_ctx (λ c. record c { first_receive_done = true }) w)))

-- `Headers().Get(key)` and `RemoteAddr`
abbrev pub header_of : Text → Option ConnectionInfo → Text
header_of key none = []
header_of key (some info) = info.headers key

abbrev pub remote_addr_of : Option ConnectionInfo → Text
remote_addr_of none = []
remote_addr_of (some info) = info.remote_addr

abbrev pub meta_value : Text → Option (TextMap Value) → Option Value
meta_value key none = none
meta_value key (some m) = lookup key m

abbrev pub meta_of : Text → Option InboundMessage → Option Value
meta_of key none = none
meta_of key (some m) = meta_value key m.meta
