-- ===== src/Socket/Closing.antt =====
-- socket.go: what `Close` does.
use velaros.Base.{
  ℕ, ◌≡◌, refl, true, false, none, some, [], ◌∷◌, Text, text_eq, arith, inl, inr, Bool-cases,
}
use velaros.Base.Maps.{TextMap, lookup}
use velaros.Socket.Defs.{Status, CloseSource, ReceiverEntry, Channel, Socket}
use velaros.Socket.Ops.{close, close_receivers}

stays_closed :
    (rs : TextMap ReceiverEntry) (channels : ℕ → Channel) (c : ℕ)
    → (channels c).closed ≡ true
    → (close_receivers rs channels c).closed ≡ true
unfolding close_receivers
stays_closed [] channels c h = h
stays_closed ((_, r) ∷ rs) channels c h = stays_closed rs _ c (ground arith)

close_receivers-closed :
    (rs : TextMap ReceiverEntry) (channels : ℕ → Channel) (id : Text) (r : ReceiverEntry)
    → lookup id rs ≡ some r
    → (close_receivers rs channels r.ch).closed ≡ true
unfolding close_receivers lookup
close_receivers-closed [] channels id r h = absurd cc
close_receivers-closed ((j, q) ∷ rs) channels id r h = elim (Bool-cases (text_eq j id)) [
  | inl same ↦ let is : some q ≡ some r = rw same at h in stays_closed rs _ r.ch (ground arith)
  | inr differ ↦ close_receivers-closed rs _ id r (rw differ at h)
]

-- The state of a socket that was closed for this reason.
pub record IsClosedFor (status : Status) (reason : Text) (source : CloseSource) (s s' : Socket)
    : Type 0 where
  pub closed : s'.closed ≡ true
  pub why :
      (s'.close_status ≡ status) × (s'.close_reason ≡ reason) × (s'.close_status_source ≡ source)
  pub done : s'.cancelled ≡ true
  pub no_receivers : (id : Text) → lookup id s'.receivers ≡ none
  pub no_locks : (id : Text) → lookup id s'.message_id_locks ≡ none
  pub receivers_closed :
      (id : Text) (r : ReceiverEntry)
      → lookup id s.receivers ≡ some r
      → (s'.channels r.ch).closed ≡ true

-- The first `Close` sets the status, the reason and the source, cancels the socket's context, closes
-- the channel of every registered receiver, and forgets all receivers and all locks; and every
-- `Close` after it changes nothing.
pub close_first :
    (status status' : Status) (reason reason' : Text) (source source' : CloseSource) (s : Socket)
    → s.closed ≡ false
    → IsClosedFor status reason source s (close status reason source s)
      × (close status' reason' source' (close status reason source s)
          ≡ close status reason source s)
unfolding close lookup
close_first status status' reason reason' source source' s open_ = rw open_ (
  record {
    closed = refl;
    why = (refl, refl, refl);
    done = refl;
    no_receivers = λ id. refl;
    no_locks = λ id. refl;
    receivers_closed = close_receivers-closed s.receivers s.channels;
  },
  refl,
)
