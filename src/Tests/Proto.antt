-- ===== src/Tests/Proto.antt =====
-- Replies behind the middleware of Protocol Buffers.
use velaros.Base.{◌==◌, if◌then◌else◌, sym, ap, ◌≡◌, refl, Option, none, some, [], ◌∷◌, Text, codes}
use velaros.Socket.Defs.{Value, Bytes}
use velaros.Context.Defs.{Encoded, encoded, encode_error, send, nil, World}
use velaros.Context.Ops.{perform}
use velaros.Middleware.Envelope.{Envelope}
use velaros.Middleware.Handled.{prepared}
use velaros.Middleware.Protobuf.{ProtoEnvelope, proto_error, Codec, protobuf_format}
use velaros.Middleware.ProtoReplying.{Reads, Answers, proto_send-Answers}
use velaros.Tests.Fixtures.{a, env, message_to, socket, at_chain}

abbrev incoming : Envelope
incoming = record { id = codes "7"; path = a; meta = none; message_data = some (codes "hi") }

-- Envelopes with an id of one rune; the value 0 is no message.
abbrev envelope_bytes : Text → Bytes → Encoded
envelope_bytes (c ∷ []) d = encoded (c ∷ d)
envelope_bytes _ d = encode_error (codes "id")

abbrev message_bytes : Value → Option Encoded
message_bytes v = if v == 0 then none else some (encoded (v ∷ []))

abbrev codec : Codec
codec = record {
  unpack = λ b. proto_error (codes "syntax");
  json_value = λ b. none;
  bytes_value = λ b. 0;
  unmarshal_into = none;
  marshal_message = message_bytes;
  marshal_envelope = envelope_bytes;
}

abbrev client : Bytes → Option ProtoEnvelope
client [] = none
client (c ∷ d) = some (record { id = c ∷ []; path = []; message_data = d; meta = [] })

client-Reads : Reads codec client
client-Reads (c ∷ []) d b e = let same : c ∷ d ≡ b = cc in ap client (sym same)
client-Reads [] d b e = absurd cc
client-Reads (c ∷ c' ∷ id) d b e = absurd cc

abbrev arrived : World
arrived = at_chain nil (message_to [])

proto_send-Answers_example :
    Answers env codec client
      (codes "7")
      (prepared (protobuf_format codec) incoming (message_to []) socket arrived)
      (some (encoded (5 ∷ [])))
      (perform env
        (send 5)
        (prepared (protobuf_format codec) incoming (message_to []) socket arrived))
proto_send-Answers_example =
    proto_send-Answers env codec client incoming (message_to []) socket arrived 5 client-Reads refl
