-- ===== src/Context/Receiving.antt =====
-- context.go: `Receive` and `Request`, and what they leave for the message that is to come.
use velaros.Base.{◌≢◌, ◌≡◌, sym, ap, ◌∙◌, Bool, true, false, not, none, some, [], ◌∷◌, arith}
use velaros.Pattern.Parse.{is_empty}
use velaros.Socket.Defs.{Value, Bytes, InboundMessage, SocketMessage}
use velaros.Socket.Ops
use velaros.Context.Defs.{
  Environment, Marshaller, encoded, receive, request, bytes, error, lasting, World,
}
use velaros.Context.Ops.{perform}
use velaros.Context.Calls.{
  reply, waits, Result, register_receiver, write_out, on_ctx, receive_next, received, with_message,
  guarded, reading, writing, receive_at, send_value, sent_then, receive_with, marshal, on_socket,
}
use velaros.Context.Listening.{
  Listening, register_receiver-Listening, register_receiver-cancelled, register_receiver-written,
}

abbrev pub touched : World → World
touched w = on_ctx (λ c. record c { first_receive_done = true }) w

receive-is :
    (env : Environment) (m : InboundMessage) (w : World)
    → w.ctx.message ≡ some m
    → perform env receive w
      ≡ receive_next lasting (not w.ctx.first_receive_done) (received (touched w)) (touched w) m
unfolding perform
receive-is env m w here = ap (receive_at lasting received w (touched w)) here

-- Behind the first message nothing is received at once.
later-waits :
    (use_message : InboundMessage → Result) (w v : World) (m : InboundMessage) (d : Bytes)
    → receive_next lasting false use_message w m ≢ reply (bytes d) v
later-waits use_message w v m d e = ground arith

first-receives :
    (b : Bool) (w w' : World) (m : InboundMessage) (d : Bytes)
    → receive_next lasting b (received w) w m ≡ reply (bytes d) w'
    → (d ≡ m.message_data) × (is_empty m.message_data ≡ false) × (w' ≡ w)
first-receives b w w' m d e = ground arith

later-is :
    (env : Environment) (m : InboundMessage) (w : World)
    → w.ctx.message ≡ some m
    → w.ctx.first_receive_done ≡ true
    → receive_next lasting false (received (touched w)) (touched w) m ≡ perform env receive w
later-is env m w here done =
    ap (λ b. receive_next lasting (not b) (received (touched w)) (touched w) m) (sym done)
    ∙ sym (receive-is env m w here)

abbrev pub sent_as : World → Bytes → SocketMessage
sent_as w out = record { type = w.ctx.message_type; raw_data = []; message_data = out; meta = none }

-- A context gives its own message at most once: if `Receive` replies with bytes, those are the data
-- of the context's message, which are not empty, and `Receive` on the context that it leaves gives
-- no bytes, but waits or fails.
pub receive_once :
    (env : Environment) (m : InboundMessage) (w w' : World) (d : Bytes)
    → w.ctx.message ≡ some m
    → perform env receive w ≡ reply (bytes d) w'
    → (d ≡ m.message_data)
      × (is_empty d ≡ false)
      × ((d' : Bytes) (v : World) → perform env receive w' ≢ reply (bytes d') v)
receive_once env m w w' d here e =
    let (same, full, is) =
      first-receives (not w.ctx.first_receive_done) (touched w) w' m d
        (sym (receive-is env m w here) ∙ e) in
    (
      same,
      rw same full,
      λ d' v e'. later-waits (received (touched w')) (touched w') v m d' (
          later-is env m w' (ap (λ (x : World). x.ctx.message) is ∙ here)
            (ap (λ (x : World). x.ctx.first_receive_done) is)
          ∙ e'),
    )

receive_next-waits :
    (use_message : InboundMessage → Result) (m : InboundMessage) (w : World)
    → m.has_set_id ≡ true
    → w.socket.cancelled ≡ false
    → receive_next lasting false use_message w m ≡ waits (register_receiver m w)
receive_next-waits use_message m w known open_ = ground (arith, register_receiver-cancelled m w)

-- The context once its data is sent.
abbrev sent : World → Bytes → World
sent w out = on_socket (Ops.send w.ctx.message_type out) (touched w)

relisten :
    (w : World) (out : Bytes) {m : InboundMessage} {w' : World}
    → Listening m (touched (sent w out)) w'
    → Listening m w w'
unfolding Ops.send
relisten w out l = record {
  ch = l.ch;
  has_id = l.has_id;
  registered = l.registered;
  own = l.own;
  empty = l.empty;
  free = l.free;
  others = l.others;
}

send_value-sent :
    (env : Environment) (m : InboundMessage) (f : Marshaller) (v : Value) (out : Bytes) (w : World)
    → w.ctx.message ≡ some m
    → w.ctx.message_marshaller ≡ some f
    → f (record { id = m.id; message_data = v }) ≡ encoded out
    → env.write (sent_as w out) ≡ none
    → send_value env v (touched w) ≡ reply (error none) (sent w out)
send_value-sent env m f v out w here format made taken =
    let type = w.ctx.message_type in
    ap
      (λ o.
        with_message reading (touched w) o
          (λ m'. write_out env type (touched w) (marshal w.ctx.message_marshaller m'.id v)))
      here
    ∙ ap (λ g. write_out env type (touched w) (marshal g m.id v)) format
    ∙ ap (write_out env type (touched w)) made
    ∙ ap (λ o. reply (error o) (sent w out)) taken

-- `Request` sends its data and then waits for a message that comes later, whether or not the
-- context's own message was received: on a context that has its message, with an id from middleware,
-- and a marshaller that encodes the data, over a connection that takes it, and an open socket, it
-- writes one message with those bytes, and listens for the next message with the id.
pub request-Listening :
    (env : Environment) (m : InboundMessage) (f : Marshaller) (v : Value) (out : Bytes) (w : World)
    → w.ctx.message ≡ some m
    → m.has_set_id ≡ true
    → w.ctx.message_marshaller ≡ some f
    → f (record { id = m.id; message_data = v }) ≡ encoded out
    → env.write (sent_as w out) ≡ none
    → w.socket.cancelled ≡ false
    → (w' : World) × (perform env (request v) w ≡ waits w')
      × Listening m w w'
      × (w'.socket.written ≡ sent_as w out ∷ w.socket.written)
unfolding perform Ops.send
request-Listening env m f v out w here known format made taken open_ =
    let w1 = sent w out in
    (
      register_receiver m (touched w1),
      ap
            (λ o.
              guarded writing w o
                (sent_then (receive_with lasting received) (send_value env v (touched w))))
            here
          ∙ ap (sent_then (receive_with lasting received))
              (send_value-sent env m f v out w here format made taken)
          ∙ receive-is env m w1 here
          ∙ receive_next-waits (received (touched w1)) m (touched w1) known open_,
      relisten w out (register_receiver-Listening m (touched w1) known),
      register_receiver-written m (touched w1),
    )
