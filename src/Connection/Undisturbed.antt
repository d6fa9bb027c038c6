-- ===== src/Connection/Undisturbed.antt =====
-- socket.go: the lock of a message id, taken by middleware and given back by the message's goroutine.
use velaros.Base.{
  ◌≡◌, refl, false, none, some, Text, arith, inl, inr, Bool-cases, text_eq_refl, text_eq_iff,
}
use velaros.Base.Maps.{lookup, insert, lookup-insert, lookup-delete}
use velaros.Pattern.Parse.{is_empty}
use velaros.Socket.Defs.{InboundMessage, Socket}
use velaros.Socket.Ops
use velaros.Connection.Message.{release_own}
use velaros.Middleware.Envelope.{Envelope}
use velaros.Middleware.Handled.{with_envelope, id_taken, socket_of, socket_for}

-- A socket with the same locks taken, the same receivers and the same channels.
pub record Undisturbed (s s' : Socket) : Type 0 where
  pub locks : (k : Text) → lookup k s'.message_id_locks ≡ lookup k s.message_id_locks
  pub receivers : s'.receivers ≡ s.receivers
  pub channels : s'.channels ≡ s.channels
  pub closed : s'.closed ≡ s.closed
  pub written : s'.written ≡ s.written

-- The lock of an id that is taken for a message, and given back at its end.
release-acquire :
    (id : Text) (s : Socket)
    → lookup id s.message_id_locks ≡ none
    → Undisturbed s (Ops.release_message_id_lock id (socket_of (Ops.acquire_message_id_lock id s)))
unfolding Ops.acquire_message_id_lock Ops.release_message_id_lock
release-acquire id s free =
    let l = lookup-insert id id s.next_lock s.message_id_locks in
    let same = text_eq_refl id in
    record {
      locks = λ k. ground (
        arith,
        l,
        same,
        lookup-delete id k (insert id s.next_lock s.message_id_locks),
        lookup-insert id k s.next_lock s.message_id_locks,
        text_eq_iff id k,
      );
      receivers = ground (arith, l, same);
      channels = ground (arith, l, same);
      closed = ground (arith, l, same);
      written = ground (arith, l, same);
    }

-- The same for an envelope, which may have no id.
pub release_own-Undisturbed :
    (e : Envelope) (m : InboundMessage) (s : Socket)
    → m.has_set_id ≡ false
    → id_taken e.id s ≡ false
    → Undisturbed s (release_own (some (with_envelope e m)) (socket_for e.id s))
release_own-Undisturbed e m s no_id free = elim (Bool-cases (is_empty e.id)) [
  | inl empty ↦
      rw (empty, no_id)
        (record {
          locks = λ k. refl;
          receivers = refl;
          channels = refl;
          closed = refl;
          written = refl;
        })
  | inr named ↦ rw named (release-acquire e.id s (ground arith))
]

pub socket_for_receivers : (id : Text) (s : Socket) → (socket_for id s).receivers ≡ s.receivers
unfolding Ops.acquire_message_id_lock
socket_for_receivers id s = ground arith

pub socket_for_closed : (id : Text) (s : Socket) → (socket_for id s).closed ≡ s.closed
unfolding Ops.acquire_message_id_lock
socket_for_closed id s = ground arith
