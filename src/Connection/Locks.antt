-- ===== src/Connection/Locks.antt =====
-- context.go, `SetMessageID`, and socket.go: the lock of a message's id, from where middleware sets
-- the id to the end of the message's goroutine.
use velaros.Base.{
  ℕ, ◌+◌, ◌≡◌, refl, ap, ◌∙◌, true, false, none, some, Text, text_eq, text_eq_iff, text_eq_refl,
  arith, if◌then◌else◌, Option-cases, inl, inr,
}
use velaros.Base.Maps.{lookup, insert, lookup-insert, lookup-delete}
use velaros.Socket.Defs.{InboundMessage, Socket}
use velaros.Socket.Ops
use velaros.Context.Defs.{Environment, set_message_id, unit, World, returned}
use velaros.Context.Ops.{perform}
use velaros.Context.Calls.{reply, waits}
use velaros.Context.Sub.{finalize}
use velaros.Context.Next.{deliver}
use velaros.Conversation.Owners.{held}
use velaros.Connection.Message.{after_chain, release_own}

-- What a successful `SetMessageID` leaves, on a socket that is open.
pub record HasLock (id : Text) (w w' : World) : Type 0 where
  pub own : (m : InboundMessage) × (w'.ctx.message ≡ some m) × (m.id ≡ id) × (m.has_set_id ≡ true)
  pub taken : held id w'.socket ≡ true
  pub others : (k : Text) → held k w.socket ≡ true → held k w'.socket ≡ true
  pub open_still : w'.socket.cancelled ≡ w.socket.cancelled
  pub parents : w'.parents ≡ w.parents

abbrev pub locked_world : Text → InboundMessage → World → World
locked_world id m w = record w {
  ctx = record (w.ctx) { message = some (record m { has_set_id = true; id = id }) };
  socket = record (w.socket) {
    message_id_locks = insert id w.socket.next_lock w.socket.message_id_locks;
    lock_closed = Ops.update w.socket.lock_closed w.socket.next_lock false;
    next_lock = w.socket.next_lock + 1;
  };
}

pub locked_world-HasLock :
    (id : Text) (m : InboundMessage) (w : World) → HasLock id w (locked_world id m w)
locked_world-HasLock id m w = record {
  own = (record m { has_set_id = true; id = id }, refl, refl, refl);
  taken =
      ground
        (arith, lookup-insert id id w.socket.next_lock w.socket.message_id_locks, text_eq_refl id);
  others = λ k h. ground (arith, lookup-insert id k w.socket.next_lock w.socket.message_id_locks);
  open_still = refl;
  parents = refl;
}

set_message_id-is :
    (env : Environment) (id : Text) (w w' : World)
    → w.socket.cancelled ≡ false
    → perform env (set_message_id id) w ≡ reply unit w'
    → (m : InboundMessage) × (w.ctx.message ≡ some m) × (w' ≡ locked_world id m w)
unfolding perform Ops.acquire_message_id_lock
set_message_id-is env id w w' open_ done = elim (Option-cases w.ctx.message) [
  | inl missing ↦ ground arith
  | inr (m, here) ↦ elim (Option-cases (lookup id w.socket.message_id_locks)) [
    | inl free ↦ (m, here, ground arith)
    | inr (ch, taken) ↦ ground arith
  ]
]

set_message_id-HasLock :
    (env : Environment) (id : Text) (w w' : World)
    → w.socket.cancelled ≡ false
    → perform env (set_message_id id) w ≡ reply unit w'
    → HasLock id w w'
set_message_id-HasLock env id w w' open_ done =
    let (m, here, is) = set_message_id-is env id w w' open_ done in
    rw is (locked_world-HasLock id m w)

-- A context that sets the id of its message to the one that it set before waits for itself: the
-- lock is its own, and only its own end would release it. Both calls are on an open socket.
set_message_id_again :
    (env : Environment) (id : Text) (w w' : World)
    → w.socket.cancelled ≡ false
    → perform env (set_message_id id) w ≡ reply unit w'
    → perform env (set_message_id id) w' ≡ waits w'
unfolding perform Ops.acquire_message_id_lock
set_message_id_again env id w w' open_ done =
    let (m, here, is) = set_message_id-is env id w w' open_ done in
    rw is (
      ground
        (arith, lookup-insert id id w.socket.next_lock w.socket.message_id_locks, text_eq_refl id))

pub held-release :
    (id k : Text) (s : Socket)
    → held k (Ops.release_message_id_lock id s) ≡ (if text_eq id k then false else held k s)
unfolding Ops.release_message_id_lock
held-release id k s = ground (arith, lookup-delete id k s.message_id_locks, text_eq_iff id k)

pub finalize-held : (k : Text) (w : World) → held k (finalize w).socket ≡ held k w.socket
unfolding finalize Ops.remove_receiver
finalize-held k w = ground arith

pub release_own-held :
    (k : Text) (m : InboundMessage) (s : Socket)
    → held k (release_own (some m) s)
      ≡ (if m.has_set_id then if text_eq m.id k then false else held k s else held k s)
release_own-held k m s = ground (arith, held-release m.id k s)

-- After the goroutine of a message whose context still has it, the lock of the message's id is free
-- if middleware set the id; and every other lock is as it was, all of them if nothing set the id.
pub after_chain-held :
    (k : Text) (w : World) (m : InboundMessage)
    → w.ctx.message ≡ some m
    → held k (after_chain w).socket ≡ (
        if m.has_set_id then if text_eq m.id k then false else held k w.socket else held k w.socket)
after_chain-held k w m here =
    finalize-held k (record w { socket = release_own w.ctx.message w.socket })
    ∙ ap (λ o. held k (release_own o w.socket)) here
    ∙ release_own-held k m w.socket

-- A message whose id is set twice, to two different ids, leaves the lock of the first one taken
-- after its goroutine has ended, so that every later message with that id waits for good.
pub set_message_id_twice-held :
    (env : Environment) (first second : Text) (w w' w'' : World)
    → w.socket.cancelled ≡ false
    → perform env (set_message_id first) w ≡ reply unit w'
    → perform env (set_message_id second) w' ≡ reply unit w''
    → text_eq second first ≡ false
    → (held first (after_chain w'').socket ≡ true) × (held second (after_chain w'').socket ≡ false)
set_message_id_twice-held env first second w w' w'' open_ done done' differ =
    let l = set_message_id-HasLock env first w w' open_ done in
    let l' = set_message_id-HasLock env second w' w'' (l.open_still ∙ open_) done' in
    let (m, here, id, known) = l'.own in
    (
      after_chain-held first w'' m here ∙ rw (known, id, differ) (l'.others first l.taken),
      after_chain-held second w'' m here ∙ rw (known, id, text_eq_refl second),
    )

-- What is left where a message has been handed to a channel.
abbrev pub handed : ℕ → InboundMessage → World → World
handed ch m w = record w {
  ctx = record (w.ctx) { message = none };
  socket = record (w.socket) {
    channels = Ops.update w.socket.channels ch (record { buffer = some m; closed = false });
  };
}

pub deliver-handed :
    (ch : ℕ) (m : InboundMessage) (w : World)
    → (w.socket.channels ch).closed ≡ false
    → (w.socket.channels ch).buffer ≡ none
    → deliver ch m w ≡ returned (handed ch m w)
deliver-handed ch m w open_ empty = ground arith

-- A message that is handed to a receiver which waits for it, on the connection's own context:
-- every lock, that of the message's id as well, is after the end of the goroutine as it was
-- before, so the receiver goes on with the lock.
pub deliver-held :
    (ch : ℕ) (m : InboundMessage) (w : World)
    → (w.socket.channels ch).closed ≡ false
    → (w.socket.channels ch).buffer ≡ none
    → (w' : World) × (deliver ch m w ≡ returned w')
      × ((w'.socket.channels ch).buffer ≡ some m)
      × ((k : Text) → held k (after_chain w').socket ≡ held k w.socket)
deliver-held ch m w open_ empty = (
  handed ch m w,
  deliver-handed ch m w open_ empty,
  ground arith,
  λ k. finalize-held k (handed ch m w),
)
