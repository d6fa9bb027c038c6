-- ===== src/Tests/Middleware.antt =====
-- Middleware of the formats and of values, and handlers that receive.
use velaros.Base.{
  ℕ, zero, suc, List, ◌==◌, sym, ap, ◌≡◌, ◌≢◌, refl, true, false, Option, none, some, [], ◌∷◌, ◌++◌,
  Text, codes, text_eq, if◌then◌else◌,
}
use velaros.Base.Maps.{lookup}
use velaros.Pattern.Parse.{is_empty}
use velaros.Socket.Defs.{Bytes, InboundMessage}
use velaros.Context.Defs.{
  message_id, get, set, value, read_locked, Patience, ending, receive_with_context, error, decoded,
  Encoded, encoded, encode_error, send, receive, request, bytes, nil, World, returned,
}
use velaros.Context.Ops.{perform}
use velaros.Context.Calls.{panics, nil_dereference, on_socket, reply, waits, header_of}
use velaros.Context.Sub.{new_context}
use velaros.Context.Next.{run_script, deliver, waiting_receiver}
use velaros.Context.Listening.{Listening}
use velaros.Context.Receiving.{touched, receive_once, sent_as, request-Listening}
use velaros.Middleware.Envelope.{
  Envelope, Unpacked, unpacked, unpack_error, Format, middleware, protocol_header,
}
use velaros.Middleware.Handled.{handled, prepared}
use velaros.Middleware.Unpacking.{middleware-handled}
use velaros.Middleware.Json.{
  Codec, Body, nil_body, text_body, field_errors, other_body, Payload, plain, text_member,
  fields_member, members, payload_of, gen_fields_field, json_format,
}
use velaros.Middleware.Replying.{Reads, Answers, send-Answers}
use velaros.Socket.Ops
use velaros.Socket.Receivers.{HasOpenReceivers}
use velaros.Context.Expiring.{patience_of, after_delivery, GoneFrom, receive-swallows}
use velaros.Context.Receivers.{KeepsReceivers, perform-Keeps}
use velaros.Tests.Fixtures.{a, env, message_to, socket, at_chain}

abbrev incoming : Envelope
incoming = record { id = codes "7"; path = a; meta = none; message_data = some (codes "hi") }

-- A codec that knows one incoming envelope. A payload is written as one rune for its shape and its
-- texts; the value 9 is a named text, which is written as the message of the same text is.
abbrev unpack_one : Bytes → Unpacked
unpack_one b = if text_eq b (codes "in") then unpacked incoming else unpack_error (codes "syntax")

abbrev write_fields : List (Text × Text) → Bytes
write_fields [] = []
write_fields ((field, why) ∷ fields) = field ++ b':' ∷ (why ++ b',' ∷ write_fields fields)

abbrev write_payload : Option Payload → Bytes
write_payload none = codes "-"
write_payload (some (plain v)) = if v == 9 then codes "m" ++ codes "nine" else b'v' ∷ v ∷ []
write_payload (some (members ((k, text_member t) ∷ []))) =
    if text_eq k (codes "message") then b'm' ∷ t else b'e' ∷ t
write_payload (some (members ((k, text_member t) ∷ (k', fields_member fields) ∷ []))) =
    b'f' ∷ write_fields fields
write_payload (some (members _)) = codes "?"

abbrev marshal_one : Option Text → Option Payload → Encoded
marshal_one (some (c ∷ [])) p = encoded (c ∷ write_payload p)
marshal_one _ p = encode_error (codes "unsupported")

abbrev bodies : ℕ → Body
bodies zero = nil_body
bodies (suc zero) = text_body (codes "nine")
bodies (suc (suc zero)) =
    field_errors ((record { field = codes "name"; error = codes "empty" }) ∷ [])
bodies _ = other_body

abbrev codec : Codec
codec = record {
  unpack = unpack_one;
  unmarshal = λ b. decoded 0;
  marshal = λ o. marshal_one o.id o.message_data;
  body_of = bodies;
}

-- A client that takes the first rune for the id, and keeps what the payload is written as.
abbrev client : Bytes → Option (Text × Bytes)
client (c ∷ b) = some (c ∷ [], b)
client [] = none

client-Reads : Reads codec client write_payload (codes "7")
client-Reads p b e = let same : b'7' ∷ write_payload p ≡ b = cc in ap client (sym same)

fields_test :
    payload_of 0 (
      field_errors (
        record { field = codes "name"; error = codes "empty" }
        ∷ record { field = codes "age"; error = codes "low" }
        ∷ []))
    ≡ some (
        members (
          (codes "error", text_member (codes "Validation error"))
          ∷ (
            codes "fields",
            fields_member ((codes "name", codes "empty") ∷ (codes "age", codes "low") ∷ []),
          )
          ∷ []))
unfolding gen_fields_field
fields_test = refl

abbrev raw : InboundMessage
raw = record (message_to []) { raw_data = codes "in"; id = codes "u" }

abbrev arrived : World
arrived = record (at_chain nil raw) { ctx = record ((at_chain nil raw).ctx) { message = some raw } }

abbrev format : Format
format = json_format codec

middleware-handled_example :
    run_script env returned (middleware format) arrived
    ≡ handled format returned (header_of protocol_header none) raw arrived (unpacked incoming)
unfolding lookup text_eq
middleware-handled_example = middleware-handled env returned format raw arrived refl

send-Answers_example :
    Answers env codec client write_payload
      (codes "7")
      1
      (prepared format incoming raw socket arrived)
      (encoded (codes "7mnine"))
      (perform env (send 1) (prepared format incoming raw socket arrived))
send-Answers_example =
    send-Answers env codec client write_payload (codes "velaros-json") incoming raw socket arrived 1
      client-Reads refl

-- The client finds the same in the answer with the value 9.
same_test : write_payload (payload_of 9 (bodies 9)) ≡ write_payload (payload_of 1 (bodies 1))
unfolding text_eq
same_test = refl

abbrev conversing : World
conversing = record arrived {
  ctx = record (arrived.ctx) {
    message = some (record raw { has_set_id = true; message_data = codes "hi" });
    message_marshaller = some format.marshaller;
  };
}

abbrev trigger : InboundMessage
trigger = record raw { has_set_id = true; message_data = codes "hi" }

receives_hi : perform env receive conversing ≡ reply (bytes (codes "hi")) (touched conversing)
unfolding perform new_context
receives_hi = refl

receive_once_example :
    (codes "hi" ≡ codes "hi")
    × (is_empty (codes "hi") ≡ false)
    × ((d : Bytes) (v : World) → perform env receive (touched conversing) ≢ reply (bytes d) v)
receive_once_example =
    receive_once env trigger conversing (touched conversing) (codes "hi") refl receives_hi

abbrev next_trigger : World
next_trigger = touched conversing

request-Listening_example :
    (w' : World) × (perform env (request 5) conversing ≡ waits w')
    × Listening trigger conversing w'
    × (w'.socket.written ≡ sent_as conversing (117 ∷ b'v' ∷ 5 ∷ []) ∷ [])
request-Listening_example =
    request-Listening env trigger format.marshaller 5 (117 ∷ b'v' ∷ 5 ∷ []) conversing refl refl
      refl refl refl refl

none_registered : HasOpenReceivers conversing.socket
unfolding lookup
none_registered = record { open_channel = λ id r e. cc; made = λ id r e. cc }

perform-Keeps_example : KeepsReceivers (perform env (request 5) conversing)
perform-Keeps_example = perform-Keeps env (request 5) conversing none_registered

-- A timeout of 5 that elapses, and one of 0, which is none.
patience_test : ◌≡◌ {A = Patience} (patience_of 5 true) (ending (codes "context deadline exceeded"))
patience_test = refl

abbrev second : InboundMessage
second = record trigger { message_data = codes "second" }

receive-swallows_example :
    (w' : World) × (perform env (receive_with_context (ending (codes "late"))) next_trigger
      ≡ reply (error (some (codes "receive cancelled: late"))) w')
    × (l : Listening trigger (touched next_trigger) w') × (waiting_receiver second
          next_trigger.ctx.current_handler_node 0
          (record arrived { socket = w'.socket })
        ≡ some l.ch)
    × (deliver l.ch second
          (on_socket (Ops.remove_receiver second.id) (record arrived { socket = w'.socket }))
        ≡ returned (after_delivery second l.ch (record arrived { socket = w'.socket })))
    × GoneFrom second l.ch w' (record arrived { socket = w'.socket })
unfolding new_context
receive-swallows_example =
    receive-swallows env trigger second (codes "late") next_trigger arrived refl refl refl refl refl
      refl refl

-- A context whose message was handed to a receiver: `MessageID` panics and leaves the mutex locked for
-- reading, so that `Get` still answers and `Set` waits.
abbrev handed_on : World
handed_on = record arrived { ctx = record (arrived.ctx) { message = none } }

abbrev left_open : World
left_open = record handed_on { ctx = record (handed_on.ctx) { mu = read_locked } }

message_id_test : perform env message_id handed_on ≡ panics nil_dereference left_open
unfolding perform new_context
message_id_test = refl

get_test : perform env (get a) left_open ≡ reply (value none) left_open
unfolding perform new_context lookup
get_test = refl

set_test : perform env (set a 1) left_open ≡ waits left_open
unfolding perform new_context
set_test = refl
