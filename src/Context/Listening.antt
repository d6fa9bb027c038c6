-- ===== src/Context/Listening.antt =====
-- context.go, `receiveNextMessage`: a context that waits for the next message with its id.
use velaros.Base.{
  ℕ, ◌-◌, ◌≡◌, refl, ap, ◌∙◌, true, false, none, some, Text, text_eq, text_eq_iff, text_eq_refl,
  if◌then◌else◌, arith,
}
use velaros.Base.Maps.{lookup, lookup-insert, lookup-delete}
use velaros.Socket.Defs.{InboundMessage, Socket, Channel}
use velaros.Socket.Ops
use velaros.Context.Defs.{World}
use velaros.Context.Calls.{node_address, register_receiver}

-- A context that waits for the next message with its id: a fresh channel is registered for the id,
-- at the handler that is running, the channel is the context's own, and the lock of the id is free
-- for that message, while no other lock has changed.
pub record Listening (m : InboundMessage) (w w' : World) : Type 0 where
  pub ch : ℕ
  pub has_id : m.has_set_id ≡ true
  pub registered :
      Ops.get_receiver_for_node m.id
        (node_address w.ctx.current_handler_node)
        (w.ctx.current_handler_index - 1)
        w'.socket
      ≡ some ch
  pub own : (w'.ctx.receiver_chan ≡ some ch) × (w'.ctx.owns_receiver ≡ true)
  pub empty : w'.socket.channels ch ≡ Ops.empty_channel
  pub free : lookup m.id w'.socket.message_id_locks ≡ none
  pub others :
      (k : Text)
      → text_eq m.id k ≡ false
      → lookup k w'.socket.message_id_locks ≡ lookup k w.socket.message_id_locks

release-receivers :
    (id : Text) (s : Socket) → (Ops.release_message_id_lock id s).receivers ≡ s.receivers
unfolding Ops.release_message_id_lock
release-receivers id s = ground arith

release-channels :
    (id : Text) (s : Socket) → (Ops.release_message_id_lock id s).channels ≡ s.channels
unfolding Ops.release_message_id_lock
release-channels id s = ground arith

release-locks :
    (id k : Text) (s : Socket)
    → lookup k (Ops.release_message_id_lock id s).message_id_locks
      ≡ (if text_eq id k then none else lookup k s.message_id_locks)
unfolding Ops.release_message_id_lock
release-locks id k s = ground (arith, lookup-delete id k s.message_id_locks, text_eq_iff id k)

abbrev socket_of : ℕ × Socket → Socket
socket_of (ch, s) = s

pub register_receiver-Listening :
    (m : InboundMessage) (w : World) → m.has_set_id ≡ true → Listening m w (register_receiver m w)
unfolding register_receiver Ops.get_receiver_for_node Ops.add_receiver Ops.make_channel
register_receiver-Listening m w known =
    let s = socket_of (Ops.make_channel w.socket) in
    let node = node_address w.ctx.current_handler_node in
    let index = w.ctx.current_handler_index - 1 in
    let s' = Ops.add_receiver m.id node index w.socket.next_channel s in
    record {
      ch = w.socket.next_channel;
      has_id = known;
      registered =
          ap (λ rs. Ops.entry_channel node index (lookup m.id rs)) (release-receivers m.id s')
          ∙ ground (
            arith,
            text_eq_refl m.id,
            lookup-insert m.id m.id
                (record { node = node; handler_index = index; ch = w.socket.next_channel })
                w.socket.receivers,
          );
      own = (refl, refl);
      empty =
          ap (λ (c : ℕ → Channel). c w.socket.next_channel) (release-channels m.id s')
          ∙ ground arith;
      free = release-locks m.id m.id s' ∙ rw (text_eq_refl m.id) refl;
      others = λ k other. release-locks m.id k s' ∙ rw other refl;
    }

pub register_receiver-cancelled :
    (m : InboundMessage) (w : World) → (register_receiver m w).socket.cancelled ≡ w.socket.cancelled
unfolding register_receiver Ops.release_message_id_lock Ops.add_receiver Ops.make_channel
register_receiver-cancelled m w = ground arith

pub register_receiver-written :
    (m : InboundMessage) (w : World) → (register_receiver m w).socket.written ≡ w.socket.written
unfolding register_receiver Ops.release_message_id_lock Ops.add_receiver Ops.make_channel
register_receiver-written m w = ground arith
