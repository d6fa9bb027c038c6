-- ===== src/Context/Expiring.antt =====
-- context.go, `ReceiveWithTimeout` and its likes: a wait that ends before a message comes.
use velaros.Base.{
  ℕ, ◌-◌, ◌==◌, ◌&&◌, ◌≡◌, refl, ap, ◌∙◌, Bool, not, true, false, none, some, ◌++◌, Text, codes,
  if◌then◌else◌, arith,
}
use velaros.Pattern.Parse.{is_empty}
use velaros.Socket.Defs.{InboundMessage}
use velaros.Socket.Ops
use velaros.Context.Defs.{
  Environment, Patience, lasting, ending, receive_with_context, error, World, returned,
}
use velaros.Context.Ops.{perform}
use velaros.Context.Calls.{
  reply, Result, register_receiver, on_ctx, on_socket, receive_next, received, receive_at,
}
use velaros.Context.Sub.{finalize}
use velaros.Context.Next.{waiting_receiver, deliver}
use velaros.Context.Listening.{Listening, register_receiver-Listening, register_receiver-cancelled}
use velaros.Context.Receiving.{touched}

-- `context.WithTimeout` on the context's own one, or that one where the timeout is 0.
abbrev pub patience_of : ℕ → Bool → Patience
patience_of timeout elapses =
    if timeout == 0
    then lasting
    else if elapses
    then ending (codes "context deadline exceeded")
    else lasting

receive_next-expires :
    (why : Text) (b : Bool) (use_message : InboundMessage → Result) (m : InboundMessage) (w : World)
    → m.has_set_id ≡ true
    → b && not (is_empty m.message_data) ≡ false
    → w.socket.cancelled ≡ false
    → receive_next (ending why) b use_message w m
      ≡ reply (error (some (codes "receive cancelled: " ++ why))) (register_receiver m w)
receive_next-expires why b use_message m w known later open_ =
    ground (arith, register_receiver-cancelled m w)

receive-expires :
    (env : Environment) (m : InboundMessage) (why : Text) (w : World)
    → w.ctx.message ≡ some m
    → m.has_set_id ≡ true
    → not w.ctx.first_receive_done && not (is_empty m.message_data) ≡ false
    → w.socket.cancelled ≡ false
    → perform env (receive_with_context (ending why)) w
      ≡ reply (error (some (codes "receive cancelled: " ++ why))) (register_receiver m (touched w))
unfolding perform
receive-expires env m why w here known later open_ =
    ap (receive_at (ending why) received w (touched w)) here
    ∙ receive_next-expires why (not w.ctx.first_receive_done) (received (touched w)) m (touched w)
        known later open_

-- The context that receives a message, as it meets the receiver.
abbrev pub after_delivery : InboundMessage → ℕ → World → World
after_delivery m ch v =
    on_ctx (λ c. record c { message = none })
      (on_socket
        (λ s. record s {
          channels = Ops.update s.channels ch (record { buffer = some m; closed = false });
        })
        (on_socket (Ops.remove_receiver m.id) v))

deliver-empty :
    (m : InboundMessage) (ch : ℕ) (v : World)
    → v.socket.channels ch ≡ Ops.empty_channel
    → deliver ch m (on_socket (Ops.remove_receiver m.id) v) ≡ returned (after_delivery m ch v)
unfolding Ops.remove_receiver
deliver-empty m ch v empty = rw empty refl

waiting-found :
    (m m' : InboundMessage) (w w' v : World)
    → m'.id ≡ m.id
    → m'.has_set_id ≡ true
    → v.ctx.receiver_chan ≡ none
    → (l : Listening m w w')
    → waiting_receiver m' w.ctx.current_handler_node
        (w.ctx.current_handler_index - 1)
        (record v { socket = w'.socket })
      ≡ some l.ch
waiting-found m m' w w' v same known alone l = rw (known, alone, same) l.registered

-- A receive whose time runs out leaves its receiver behind.
swallowed :
    (m m' : InboundMessage) (w w' v : World)
    → (l : Listening m w w')
    → ((finalize (record w' {
      socket = (after_delivery m' l.ch (record v { socket = w'.socket })).socket;
    })).socket.channels
        l.ch).buffer
      ≡ none
unfolding finalize Ops.remove_receiver
swallowed m m' w w' v l = rw (l.own.0, l.own.1) (ground arith)

abbrev pub GoneFrom : InboundMessage → ℕ → World → World → Type 0
GoneFrom m ch w v =
    ((finalize (record w { socket = (after_delivery m ch v).socket })).socket.channels ch).buffer
    ≡ none

-- A receive whose time runs out, or whose context is cancelled, before a message comes, on a context
-- with a message that has an id from middleware, that does not count as the one received, and on an
-- open socket: it answers with an error, while its receiver stays registered and the lock of the id
-- is free. The next message with the id is handed to that receiver's channel at the same handler, in
-- any context that has no channel of its own, which gives it up; and if nothing is received until
-- then, finalize of the first context throws it away.
pub receive-swallows :
    (env : Environment) (m m' : InboundMessage) (why : Text) (w v : World)
    → w.ctx.message ≡ some m
    → m.has_set_id ≡ true
    → not w.ctx.first_receive_done && not (is_empty m.message_data) ≡ false
    → w.socket.cancelled ≡ false
    → m'.id ≡ m.id
    → m'.has_set_id ≡ true
    → v.ctx.receiver_chan ≡ none
    → (w' : World) × (perform env (receive_with_context (ending why)) w
        ≡ reply (error (some (codes "receive cancelled: " ++ why))) w')
      × (l : Listening m (touched w) w') × (waiting_receiver m' w.ctx.current_handler_node
            (w.ctx.current_handler_index - 1)
            (record v { socket = w'.socket })
          ≡ some l.ch)
      × (deliver l.ch m' (on_socket (Ops.remove_receiver m'.id) (record v { socket = w'.socket }))
          ≡ returned (after_delivery m' l.ch (record v { socket = w'.socket })))
      × GoneFrom m' l.ch w' (record v { socket = w'.socket })
receive-swallows env m m' why w v here known later open_ same known' alone =
    let w' = register_receiver m (touched w) in
    let l = register_receiver-Listening m (touched w) known in
    (
      w',
      receive-expires env m why w here known later open_,
      l,
      waiting-found m m' (touched w) w' v same known' alone l,
      deliver-empty m' l.ch (record v { socket = w'.socket }) l.empty,
      swallowed m m' (touched w) w' v l,
    )
