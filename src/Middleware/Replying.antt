-- ===== src/Middleware/Replying.antt =====
-- A handler's reply to a message that came in through the middleware of JSON or MessagePack.
use mathlib.Core.Path.{subst, sym}
use mathlib.Core.List.{append-nil, append_assoc}
use velaros.Socket.Ops
use velaros.Base.{
  ap, ◌∙◌, ◌≡◌, refl, false, Option, none, some, List, [], ◌∷◌, ◌++◌, Text, codes, if◌then◌else◌,
}
use velaros.Pattern.Parse.{is_empty}
use velaros.Socket.Defs.{Value, Bytes, InboundMessage, SocketMessage, Socket}
use velaros.Context.Defs.{Environment, send, error, Encoded, encoded, encode_error, World}
use velaros.Context.Ops.{perform}
use velaros.Context.Calls.{reply, Result, write_out}
use velaros.Middleware.Envelope.{Envelope}
use velaros.Middleware.Handled.{prepared}
use velaros.Middleware.Sending.{send-prepared}
use velaros.Middleware.Json.{
  Codec, FieldError, Body, field_errors, field_error, error_body, text_body, nil_body, other_body,
  Payload, members, plain, text_member, fields_member, gen_fields_loop, gen_fields_field,
  payload_of, OutboundEnvelope, format,
}

-- How a client reads the bytes that the codec makes for an id: it finds the id, and what the payload
-- stands for. Different payloads may stand for the same, as a text and the same text in a named type do.
abbrev pub Reads :
    {J : Type 0} → Codec → (Bytes → Option (Text × J)) → (Option Payload → J) → Text → Type 0
Reads c client stands_for id =
    (p : Option Payload) (b : Bytes)
    → c.marshal (record { id = some id; message_data = p }) ≡ encoded b
    → client b ≡ some (id, stands_for p)

abbrev pub pairs : List FieldError → List (Text × Text)
pairs [] = []
pairs (e ∷ es) = (e.field, e.error) ∷ pairs es

abbrev pub invalid : List FieldError → Payload
invalid es = members (
    (codes "error", text_member (codes "Validation error"))
    ∷ (codes "fields", fields_member (pairs es))
    ∷ [])

-- What a handler tells the client with a value: the fields that are wrong, an error's text, a text as
-- a message, nothing, or the value itself.
abbrev pub told : Value → Body → Option Payload
told v (field_errors es) = some (invalid es)
told v (field_error e) = some (invalid (e ∷ []))
told v (error_body e) = some (members ((codes "error", text_member e) ∷ []))
told v (text_body t) = some (members ((codes "message", text_member t) ∷ []))
told v nil_body = none
told v other_body = some (plain v)

gen_fields_loop-pairs :
    (fields : List (Text × Text)) (es : List FieldError)
    → gen_fields_loop fields es ≡ fields ++ pairs es
unfolding gen_fields_loop
gen_fields_loop-pairs fields [] = sym (append-nil fields)
gen_fields_loop-pairs fields (e ∷ es) =
    gen_fields_loop-pairs (fields ++ (e.field, e.error) ∷ []) es
    ∙ append_assoc fields ((e.field, e.error) ∷ []) (pairs es)

payload_of-told : (v : Value) (b : Body) → payload_of v b ≡ told v b
unfolding gen_fields_field
payload_of-told v (field_errors es) =
    ap
      (λ fields. some (
        members (
          (codes "error", text_member (codes "Validation error"))
          ∷ (codes "fields", fields_member fields)
          ∷ [])))
      (gen_fields_loop-pairs [] es)
payload_of-told v (field_error e) = refl
payload_of-told v (error_body e) = refl
payload_of-told v (text_body t) = refl
payload_of-told v nil_body = refl
payload_of-told v other_body = refl

-- The envelope that answers a message with that id.
abbrev pub answer : Codec → Text → Value → OutboundEnvelope
answer c id v = record { id = some id; message_data = told v (c.body_of v) }

-- The handler writes one message, of the type of the incoming one, and gets the error of the write;
-- or writes nothing and gets the error of the encoding.
abbrev pub Answers :
    {J : Type 0}
    → Environment
    → Codec
    → (Bytes → Option (Text × J))
    → (Option Payload → J)
    → Text
    → Value
    → World
    → Encoded
    → Result
    → Type 0
Answers env c client stands_for id v w (encode_error why) r = r ≡ reply (error (some why)) w
Answers env c client stands_for id v w (encoded b) r =
    (w' : World) × (sent : SocketMessage) × (r ≡ reply (error (env.write sent)) w')
    × (w'.socket.written ≡ sent ∷ w.socket.written)
    × (sent.type ≡ w.ctx.message_type)
    × (client sent.message_data ≡ some (id, stands_for (told v (c.body_of v))))

write_out-Answers :
    {J : Type 0} (env : Environment) (c : Codec) (client : Bytes → Option (Text × J))
    (stands_for : Option Payload → J) (id : Text) (v : Value) (w : World) (x : Encoded)
    → Reads c client stands_for id
    → c.marshal (answer c id v) ≡ x
    → Answers env c client stands_for id v w x (write_out env w.ctx.message_type w x)
unfolding Ops.send
write_out-Answers env c client stands_for id v w (encode_error why) reads made = refl
write_out-Answers env c client stands_for id v w (encoded b) reads made =
    (_, _, refl, refl, refl, reads (told v (c.body_of v)) b made)

send-is :
    (env : Environment) (c : Codec) (subprotocol : Text) (e : Envelope) (m : InboundMessage)
    (s : Socket) (w : World) (v : Value)
    → is_empty e.id ≡ false
    → perform env (send v) (prepared (format subprotocol c) e m s w)
      ≡ write_out env w.ctx.message_type
          (prepared (format subprotocol c) e m s w)
          (c.marshal (answer c e.id v))
send-is env c subprotocol e m s w v has_id =
    send-prepared env (format subprotocol c) e m s w v has_id
    ∙ ap
        (λ b. write_out env w.ctx.message_type (prepared (format subprotocol c) e m s w) (
          c.marshal (record {
            id = if b then none else some e.id;
            message_data = payload_of v (c.body_of v);
          })))
        has_id
    ∙ ap
        (λ p.
          write_out env w.ctx.message_type (prepared (format subprotocol c) e m s w)
            (c.marshal (record { id = some e.id; message_data = p })))
        (payload_of-told v (c.body_of v))

-- A client that can read what the codec writes for its id gets that id back: behind the middleware, on
-- a message that came with an id, a handler's `Send` writes one message, of the incoming message's
-- type, in which the client finds the id and what the value's payload stands for: the wrong fields of
-- field errors, the text of an error, a text as a message, nothing, or the value itself; and the handler
-- gets the connection's error, if there is one. Or the value cannot be encoded, and then nothing is
-- written and the handler gets that error.
pub send-Answers :
    {J : Type 0} (env : Environment) (c : Codec) (client : Bytes → Option (Text × J))
    (stands_for : Option Payload → J) (subprotocol : Text) (e : Envelope) (m : InboundMessage)
    (s : Socket) (w : World) (v : Value)
    → Reads c client stands_for e.id
    → is_empty e.id ≡ false
    → Answers env c client stands_for e.id v
        (prepared (format subprotocol c) e m s w)
        (c.marshal (answer c e.id v))
        (perform env (send v) (prepared (format subprotocol c) e m s w))
send-Answers env c client stands_for subprotocol e m s w v reads has_id =
    let w' = prepared (format subprotocol c) e m s w in
    subst (Answers env c client stands_for e.id v w' (c.marshal (answer c e.id v)))
      (sym (send-is env c subprotocol e m s w v has_id))
      (write_out-Answers env c client stands_for e.id v w' _ reads refl)
