-- ===== src/Middleware/Handled.antt =====
-- What is to become of a message that the middleware of a format sees.
use velaros.Base.{
  ◌&&◌, ℕ, Bool, true, false, not, ◌||◌, Option, none, some, [], ◌∷◌, Text, text_eq, ◌≡◌, refl, inl,
  inr, Bool-cases, if◌then◌else◌,
}
use velaros.Base.Maps.{lookup, TextMap}
use velaros.Pattern.Parse.{is_empty}
use velaros.Socket.Defs.{Value, InboundMessage, Socket}
use velaros.Socket.Ops
use velaros.Context.Defs.{World, Outcome, returned, blocked}
use velaros.Context.Calls.{on_ctx}
use velaros.Context.Next.{is_some}
use velaros.Middleware.Envelope.{
  Envelope, Unpacked, unpacked, unpack_error, Format, unsupported, refuses,
}

abbrev pub or_else {ℓ} : {A : Type ℓ} → Option A → A → A
or_else none a = a
or_else (some b) a = b

abbrev pub or_old : Option (TextMap Value) → Option (TextMap Value) → Option (TextMap Value)
or_old none old = old
or_old (some m) old = some m

-- The message with what the envelope says of it.
abbrev pub with_envelope : Envelope → InboundMessage → InboundMessage
with_envelope e m = record m {
  has_set_id = not (is_empty e.id) || m.has_set_id;
  id = if is_empty e.id then m.id else e.id;
  has_set_path = not (is_empty e.path) || m.has_set_path;
  path = if is_empty e.path then m.path else e.path;
  meta = or_old e.meta m.meta;
  message_data = or_else e.message_data m.message_data;
}

-- The context as the handlers behind the middleware find it.
abbrev pub prepared : Format → Envelope → InboundMessage → Socket → World → World
prepared f e m s w = record w {
  ctx = record (w.ctx) {
    message = some (with_envelope e m);
    message_unmarshaler = some f.unmarshaler;
    message_marshaller = some f.marshaller;
  };
  socket = s;
}

abbrev pub id_taken : Text → Socket → Bool
id_taken id s = not (is_empty id) && is_some (lookup id s.message_id_locks)

abbrev pub socket_of : ℕ × Bool × Socket → Socket
socket_of (ch, first, s) = s

-- The socket on which the context goes on: with the lock of the id, if the envelope has one.
abbrev pub socket_for : Text → Socket → Socket
socket_for id s = if is_empty id then s else socket_of (Ops.acquire_message_id_lock id s)

abbrev pub with_id : Text → InboundMessage → InboundMessage
with_id id m = record m {
  has_set_id = not (is_empty id) || m.has_set_id;
  id = if is_empty id then m.id else id;
}

abbrev pub with_path : Text → InboundMessage → InboundMessage
with_path path m = record m {
  has_set_path = not (is_empty path) || m.has_set_path;
  path = if is_empty path then m.path else path;
}

abbrev pub holding : InboundMessage → Socket → World → World
holding m s w = record w { ctx = record (w.ctx) { message = some m }; socket = s }

abbrev pub waiting_for : Envelope → InboundMessage → World → World
waiting_for e m w = holding (with_id e.id m) w.socket w

abbrev pub entering :
    Format → (World → Outcome) → Envelope → InboundMessage → World → Bool → Outcome
entering f again e m w false = again (prepared f e m (socket_for e.id w.socket) w)
entering f again e m w true =
    if w.socket.cancelled then again (prepared f e m w.socket w) else blocked (waiting_for e m w)

abbrev pub failed : Text → World → Outcome
failed why w = returned (on_ctx (λ c. record c { err = some why }) w)

abbrev pub handled_as :
    Format → (World → Outcome) → Text → InboundMessage → World → Unpacked → Outcome
handled_as f again protocol m w (unpacked e) = entering f again e m w (id_taken e.id w.socket)
handled_as f again protocol m w (unpack_error why) =
    if is_empty protocol then again w else failed why w

-- The client asked for no subprotocol, or for the format's.
abbrev pub speaks : Format → Text → Bool
speaks f [] = true
speaks f (c ∷ cs) = text_eq (c ∷ cs) f.subprotocol

pub refuses-speaks :
    (f : Format) (protocol : Text) → refuses f protocol ≡ false → speaks f protocol ≡ true
refuses-speaks f [] taken = refl
refuses-speaks f (c ∷ cs) taken = elim (Bool-cases (text_eq (c ∷ cs) f.subprotocol)) [
  | inl same ↦ same
  | inr other ↦ absurd cc
]

-- What is to become of a message whose bytes unpack like this.
abbrev pub handled : Format → (World → Outcome) → Text → InboundMessage → World → Unpacked → Outcome
handled f again protocol m w u =
    if speaks f protocol then handled_as f again protocol m w u else failed (unsupported protocol) w
