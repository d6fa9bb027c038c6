-- ===== src/Context/Receivers.antt =====
-- socket.go and context.go: the receivers that are registered on a socket.
use velaros.Base.{ℕ, refl, Bool, true, false, not, ◌&&◌, Option, none, some, Text, if◌then◌else◌}
use velaros.Pattern.Parse.{is_empty}
use velaros.Socket.Defs.{server_close_source, Value, MessageType, InboundMessage, Socket}
use velaros.Socket.Ops
use velaros.Context.Defs.{
  must_get, set_on_socket, must_get_from_socket, delete_from_socket, message_id, path, raw_data,
  message_data, set_message_id, set_message_path, set_message_raw_data, set_message_data,
  set_message_meta, send, receive, receive_into, request, request_into, receive_with_context,
  receive_into_with_context, request_with_context, request_into_with_context, Patience, lasting,
  ending, close_with_status, Environment, Op, set, get, delete, params, meta,
  set_message_unmarshaler, set_message_marshaller, message_type, Encoded, encoded, encode_error,
  Unmarshaler, Decoded, decoded, decode_error, error, World,
}
use velaros.Context.Ops.{perform}
use velaros.Context.Calls.{
  reply, panics, waits, Result, Locking, reading, writing, receive_at, conflicts, guarded,
  with_message, write_out, send_value, sent_then, receive_with, received, locked, received_into,
  unmarshal, decoded_reply, found_or_panic, request_with, register_receiver, on_ctx, await_in,
}
use velaros.Socket.Receivers.{
  HasOpenReceivers, same_receivers, close-HasOpenReceivers, third, add_fresh-HasOpenReceivers,
  acquire-HasOpenReceivers, release-HasOpenReceivers,
}

abbrev pub KeepsReceivers : Result → Type 0
KeepsReceivers (reply _ w) = HasOpenReceivers w.socket
KeepsReceivers (panics _ w) = HasOpenReceivers w.socket
KeepsReceivers (waits w) = HasOpenReceivers w.socket

register_receiver-HasOpenReceivers :
    (m : InboundMessage) (w : World)
    → HasOpenReceivers w.socket
    → HasOpenReceivers (register_receiver m w).socket
unfolding register_receiver Ops.make_channel
register_receiver-HasOpenReceivers m w h =
    release-HasOpenReceivers m.id _ (add_fresh-HasOpenReceivers m.id _ _ w.socket h)

either-Keeps :
    (b : Bool) (x y : Result)
    → KeepsReceivers x
    → KeepsReceivers y
    → KeepsReceivers (if b then x else y)
either-Keeps true x y h h' = h
either-Keeps false x y h h' = h'

with_message-Keeps :
    (l : Locking) (w : World) (o : Option InboundMessage) (f : InboundMessage → Result)
    → HasOpenReceivers w.socket
    → ((m : InboundMessage) → KeepsReceivers (f m))
    → KeepsReceivers (with_message l w o f)
with_message-Keeps l w none f h each = either-Keeps (conflicts l w.ctx.mu) _ _ h h
with_message-Keeps l w (some m) f h each = each m

guarded-Keeps :
    (l : Locking) (w : World) (o : Option InboundMessage) (r : Result)
    → HasOpenReceivers w.socket
    → KeepsReceivers r
    → KeepsReceivers (guarded l w o r)
guarded-Keeps l w none r h kept = either-Keeps (conflicts l w.ctx.mu) _ _ h kept
guarded-Keeps l w (some m) r h kept = kept

locked-Keeps :
    (w : World) (x : ℕ × Bool × Socket)
    → HasOpenReceivers w.socket
    → HasOpenReceivers (third x)
    → KeepsReceivers (locked w x)
locked-Keeps w (ch, true, s) h h' = h'
locked-Keeps w (ch, false, s) h h' = either-Keeps s.cancelled _ _ h h

write_out-Keeps :
    (env : Environment) (type : MessageType) (w : World) (x : Encoded)
    → HasOpenReceivers w.socket
    → KeepsReceivers (write_out env type w x)
unfolding Ops.send
write_out-Keeps env type w (encode_error e) h = h
write_out-Keeps env type w (encoded out) h = same_receivers w.socket _ refl refl refl h

unmarshal-Keeps :
    (f : Option Unmarshaler) (m : InboundMessage) (w : World)
    → HasOpenReceivers w.socket
    → KeepsReceivers (unmarshal f m w)
unmarshal-Keeps none m w h = h
unmarshal-Keeps (some f) m w h = decodes (f m)
  where
    decodes : (x : Decoded) → KeepsReceivers (decoded_reply x w)
    decodes (decoded v) = h
    decodes (decode_error e) = h

found_or_panic-Keeps :
    (why : Text) (o : Option Value) (w : World)
    → HasOpenReceivers w.socket
    → KeepsReceivers (found_or_panic why o w)
found_or_panic-Keeps why none w h = h
found_or_panic-Keeps why (some v) w h = h

await_in-Keeps :
    (p : Patience) (w : World) → HasOpenReceivers w.socket → KeepsReceivers (await_in p w)
await_in-Keeps lasting w h = h
await_in-Keeps (ending why) w h = h

receive_at-Keeps :
    (p : Patience) (use_message : World → InboundMessage → Result) (w : World)
    (o : Option InboundMessage)
    → ((v : World) (m : InboundMessage)
        → HasOpenReceivers v.socket
        → KeepsReceivers (use_message v m))
    → HasOpenReceivers w.socket
    → KeepsReceivers
        (receive_at p use_message w (on_ctx (λ c. record c { first_receive_done = true }) w) o)
receive_at-Keeps p use_message w none uses h = either-Keeps (conflicts writing w.ctx.mu) _ _ h h
receive_at-Keeps p use_message w (some m) uses h =
    let v = on_ctx (λ c. record c { first_receive_done = true }) w in
    let h' = register_receiver-HasOpenReceivers m v h in
    either-Keeps (not w.ctx.first_receive_done && not (is_empty m.message_data)) _ _ (uses v m h) (
      either-Keeps (not m.has_set_id) _ _ h (
        either-Keeps (register_receiver m v).socket.cancelled _ _ h'
          (await_in-Keeps p (register_receiver m v) h')))

receive_with-Keeps :
    (p : Patience) (use_message : World → InboundMessage → Result) (w : World)
    → ((v : World) (m : InboundMessage)
        → HasOpenReceivers v.socket
        → KeepsReceivers (use_message v m))
    → HasOpenReceivers w.socket
    → KeepsReceivers (receive_with p use_message w)
receive_with-Keeps p use_message w uses h = receive_at-Keeps p use_message w w.ctx.message uses h

send_value-Keeps :
    (env : Environment) (v : Value) (w : World)
    → HasOpenReceivers w.socket
    → KeepsReceivers (send_value env v w)
send_value-Keeps env v w h =
    with_message-Keeps reading w w.ctx.message _ h
      (λ m. write_out-Keeps env w.ctx.message_type w _ h)

sent_then-Keeps :
    (go : World → Result) (r : Result)
    → ((v : World) → HasOpenReceivers v.socket → KeepsReceivers (go v))
    → KeepsReceivers r
    → KeepsReceivers (sent_then go r)
sent_then-Keeps go (reply (error none) w) goes h = goes w h
sent_then-Keeps go (reply (error (some e)) w) goes h = h
sent_then-Keeps go (reply _ w) goes h = h
sent_then-Keeps go (panics _ w) goes h = h
sent_then-Keeps go (waits w) goes h = h

request_with-Keeps :
    (env : Environment) (p : Patience) (v : Value) (use_message : World → InboundMessage → Result)
    (w : World)
    → ((v : World) (m : InboundMessage)
        → HasOpenReceivers v.socket
        → KeepsReceivers (use_message v m))
    → HasOpenReceivers w.socket
    → KeepsReceivers (request_with env p v use_message w)
request_with-Keeps env p v use_message w uses h = guarded-Keeps writing w w.ctx.message _ h (
    sent_then-Keeps _ _ (λ x. receive_with-Keeps p use_message x uses)
      (send_value-Keeps env v (on_ctx (λ c. record c { first_receive_done = true }) w) h))

into-Keeps :
    (w : World) (m : InboundMessage)
    → HasOpenReceivers w.socket
    → KeepsReceivers (received_into w m)
into-Keeps w m h = unmarshal-Keeps w.ctx.message_unmarshaler m w h

-- Whatever a handler calls on its context, with whatever result: if every registered receiver has a
-- channel that was made and is not closed, it is so after the call.
pub perform-Keeps :
    (env : Environment) (op : Op) (w : World)
    → HasOpenReceivers w.socket
    → KeepsReceivers (perform env op w)
unfolding perform Ops.set_value Ops.delete_value
perform-Keeps env (set key v) w h = guarded-Keeps writing w w.ctx.message _ h h
perform-Keeps env (get key) w h = guarded-Keeps reading w w.ctx.message _ h h
perform-Keeps env (must_get key) w h =
    guarded-Keeps reading w w.ctx.message _ h (found_or_panic-Keeps _ _ w h)
perform-Keeps env (delete key) w h = guarded-Keeps writing w w.ctx.message _ h h
perform-Keeps env params w h = guarded-Keeps reading w w.ctx.message _ h h
perform-Keeps env (meta key) w h = guarded-Keeps reading w w.ctx.message _ h h
perform-Keeps env (set_message_unmarshaler f) w h = guarded-Keeps writing w w.ctx.message _ h h
perform-Keeps env (set_message_marshaller f) w h = guarded-Keeps writing w w.ctx.message _ h h
perform-Keeps env message_type w h = guarded-Keeps reading w w.ctx.message _ h h
perform-Keeps env (set_on_socket key v) w h = same_receivers w.socket _ refl refl refl h
perform-Keeps env (must_get_from_socket key) w h = found_or_panic-Keeps _ _ w h
perform-Keeps env (delete_from_socket key) w h = same_receivers w.socket _ refl refl refl h
perform-Keeps env message_id w h = with_message-Keeps reading w w.ctx.message _ h (λ m. h)
perform-Keeps env path w h = with_message-Keeps reading w w.ctx.message _ h (λ m. h)
perform-Keeps env raw_data w h = with_message-Keeps reading w w.ctx.message _ h (λ m. h)
perform-Keeps env message_data w h = with_message-Keeps reading w w.ctx.message _ h (λ m. h)
perform-Keeps env (set_message_id id) w h = with_message-Keeps writing w w.ctx.message _ h (λ m.
    locked-Keeps _ (Ops.acquire_message_id_lock id w.socket) h
      (acquire-HasOpenReceivers id w.socket h))
perform-Keeps env (set_message_path _) w h = with_message-Keeps writing w w.ctx.message _ h (λ m. h)
perform-Keeps env (set_message_raw_data _) w h =
    with_message-Keeps writing w w.ctx.message _ h (λ m. h)
perform-Keeps env (set_message_data _) w h = with_message-Keeps writing w w.ctx.message _ h (λ m. h)
perform-Keeps env (set_message_meta _) w h = with_message-Keeps writing w w.ctx.message _ h (λ m. h)
perform-Keeps env (send v) w h = send_value-Keeps env v w h
perform-Keeps env receive w h = receive_with-Keeps lasting received w (λ v m h'. h') h
perform-Keeps env receive_into w h = receive_with-Keeps lasting received_into w into-Keeps h
perform-Keeps env (request v) w h = request_with-Keeps env lasting v received w (λ v m h'. h') h
perform-Keeps env (request_into v) w h =
    request_with-Keeps env lasting v received_into w into-Keeps h
perform-Keeps env (receive_with_context p) w h = receive_with-Keeps p received w (λ v m h'. h') h
perform-Keeps env (receive_into_with_context p) w h =
    receive_with-Keeps p received_into w into-Keeps h
perform-Keeps env (request_with_context p v) w h =
    request_with-Keeps env p v received w (λ v m h'. h') h
perform-Keeps env (request_into_with_context p v) w h =
    request_with-Keeps env p v received_into w into-Keeps h
perform-Keeps env (close_with_status status reason) w h =
    close-HasOpenReceivers status reason server_close_source w.socket h
perform-Keeps env _ w h = h
