-- ===== src/Middleware/ProtoReplying.antt =====
-- A handler's reply to a message that came in through the middleware of Protocol Buffers.
use mathlib.Core.Path.{subst}
use velaros.Base.{sym, ◌≡◌, refl, false, Option, none, some, [], ◌∷◌, Text}
use velaros.Pattern.Parse.{is_empty}
use velaros.Socket.Defs.{Value, Bytes, InboundMessage, SocketMessage, Socket}
use velaros.Socket.Ops
use velaros.Context.Defs.{Environment, send, error, Encoded, encoded, encode_error, World}
use velaros.Context.Calls.{reply, Result, write_out}
use velaros.Context.Ops.{perform}
use velaros.Middleware.Envelope.{Envelope}
use velaros.Middleware.Handled.{prepared}
use velaros.Middleware.Protobuf.{ProtoEnvelope, Codec, no_message, marshal, protobuf_format}
use velaros.Middleware.Sending.{send-prepared}

-- How a client reads the envelopes that the package makes.
abbrev pub Reads : Codec → (Bytes → Option ProtoEnvelope) → Type 0
Reads c client =
    (id : Text) (d b : Bytes)
    → c.marshal_envelope id d ≡ encoded b
    → client b ≡ some (record { id = id; path = []; message_data = d; meta = [] })

-- A value that is no `proto.Message`, or that cannot be encoded, is not sent; neither is an envelope
-- that cannot. Else one message is written, and the client reads the id and the value's bytes.
abbrev pub Sent :
    Environment → (Bytes → Option ProtoEnvelope) → Text → Bytes → World → Encoded → Result → Type 0
Sent env client id d w (encode_error why) r = r ≡ reply (error (some why)) w
Sent env client id d w (encoded b) r =
    (w' : World) × (sent : SocketMessage) × (r ≡ reply (error (env.write sent)) w')
    × (w'.socket.written ≡ sent ∷ w.socket.written)
    × (sent.type ≡ w.ctx.message_type)
    × (client sent.message_data ≡ some (record { id = id; path = []; message_data = d; meta = [] }))

abbrev pub Answers :
    Environment
    → Codec
    → (Bytes → Option ProtoEnvelope)
    → Text
    → World
    → Option Encoded
    → Result
    → Type 0
Answers env c client id w none r = r ≡ reply (error (some no_message)) w
Answers env c client id w (some (encode_error why)) r = r ≡ reply (error (some why)) w
Answers env c client id w (some (encoded d)) r = Sent env client id d w (c.marshal_envelope id d) r

write_out-Sent :
    (env : Environment) (c : Codec) (client : Bytes → Option ProtoEnvelope) (id : Text) (d : Bytes)
    (w : World) (x : Encoded)
    → Reads c client
    → c.marshal_envelope id d ≡ x
    → Sent env client id d w x (write_out env w.ctx.message_type w x)
unfolding Ops.send
write_out-Sent env c client id d w (encode_error why) reads made = refl
write_out-Sent env c client id d w (encoded b) reads made =
    (_, _, refl, refl, refl, reads id d b made)

write_out-Answers :
    (env : Environment) (c : Codec) (client : Bytes → Option ProtoEnvelope) (id : Text) (w : World)
    (x : Option Encoded)
    → Reads c client
    → Answers env c client id w x (write_out env w.ctx.message_type w (marshal c id x))
write_out-Answers env c client id w none reads = refl
write_out-Answers env c client id w (some (encode_error why)) reads = refl
write_out-Answers env c client id w (some (encoded d)) reads =
    write_out-Sent env c client id d w (c.marshal_envelope id d) reads refl

-- A client of Protocol Buffers gets its own id back: behind the middleware, on a message that came
-- with an id, a handler's Send writes one message, of the incoming message's type, that the client
-- reads as an envelope with that id and the bytes of the value, and the handler gets the
-- connection's error, if there is one; but for a value that is no proto.Message, or a value or an
-- envelope that cannot be encoded, nothing is written and the handler gets that error.
pub proto_send-Answers :
    (env : Environment) (c : Codec) (client : Bytes → Option ProtoEnvelope) (e : Envelope)
    (m : InboundMessage) (s : Socket) (w : World) (v : Value)
    → Reads c client
    → is_empty e.id ≡ false
    → Answers env c client e.id
        (prepared (protobuf_format c) e m s w)
        (c.marshal_message v)
        (perform env (send v) (prepared (protobuf_format c) e m s w))
proto_send-Answers env c client e m s w v reads has_id =
    let w' = prepared (protobuf_format c) e m s w in
    subst (Answers env c client e.id w' (c.marshal_message v))
      (sym (send-prepared env (protobuf_format c) e m s w v has_id))
      (write_out-Answers env c client e.id w' (c.marshal_message v) reads)
