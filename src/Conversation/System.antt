-- ===== src/Conversation/System.antt =====
-- context.go (`SetMessageID`, `receiveNextMessage`, `finalize`), context_next.go (delivery to a
-- receiver) and socket.go (`HandleNextMessageWithNode`): the goroutines of the messages with one
-- id, on a socket that stays open, where no wait is cancelled. The router has no mounted routers,
-- and each message's id is set once. What a handler does to the socket besides is no move.
use velaros.Base.{Bool, ℕ, ◌≡◌, true, false, Option, none, some, [], Text}
use velaros.Socket.Defs.{InboundMessage, Socket}
use velaros.Socket.Ops
use velaros.Socket.Ops.{update}

-- Where a goroutine is: before it takes the lock; waiting for the lock with that channel; in the
-- chain; with the channel of a receiver at hand, which is still registered, or no more; waiting
-- for a message on its channel; past the release of the lock, before `finalize`; at its end. In the
-- chain and before `finalize` it is known whether its context owns a receiver's channel.
pub data Phase : Type 0 where
  arriving done : Phase
  active finishing : Bool → Phase
  waiting found sending receiving : ℕ → Phase

-- `ch` takes the message `m`, or gives up the one that it holds.
abbrev pub set_buffer : ℕ → Option InboundMessage → Socket → Socket
set_buffer ch m s = record s {
  channels = update s.channels ch (record { buffer = m; closed = (s.channels ch).closed });
}

-- One round of `receiveNextMessage`: a fresh channel, registered at a handler, and the release.
unfoldable pub await_next : Text → ℕ → ℕ → Socket → Socket
await_next id node index s =
    let (ch, s') = Ops.make_channel s in
    Ops.release_message_id_lock id (Ops.add_receiver id node index ch s')

-- What one goroutine does to the socket in one step.
pub data Move (id : Text) (s : Socket) : Phase → Socket → Phase → Type 0 where
  enter :
      {ch : ℕ} {s' : Socket}
      → Ops.acquire_message_id_lock id s ≡ (ch, true, s')
      → Move id s arriving s' (active false)
  queue :
      {ch : ℕ} {s' : Socket}
      → Ops.acquire_message_id_lock id s ≡ (ch, false, s')
      → Move id s arriving s' (waiting ch)
  wake : {ch : ℕ} → s.lock_closed ch ≡ true → Move id s (waiting ch) s arriving
  receive :
      {own : Bool} (node index : ℕ)
      → Move id s (active own) (await_next id node index s) (receiving s.next_channel)
  find :
      {ch : ℕ} (node index : ℕ)
      → Ops.get_receiver_for_node id node index s ≡ some ch
      → Move id s (active false) s (found ch)
  remove : {ch : ℕ} → Move id s (found ch) (Ops.remove_receiver id s) (sending ch)
  send :
      {ch : ℕ} (m : InboundMessage)
      → (s.channels ch).buffer ≡ none
      → Move id s (sending ch) (set_buffer ch (some m) s) done
  take :
      {ch : ℕ} {m : InboundMessage}
      → (s.channels ch).buffer ≡ some m
      → Move id s (receiving ch) (set_buffer ch none s) (active true)
  skip :
      {ch : ℕ} {m : InboundMessage} (node index : ℕ)
      → (s.channels ch).buffer ≡ some m
      → m.message_data ≡ []
      → Move id s
          (receiving ch)
          (await_next id node index (set_buffer ch none s))
          (receiving s.next_channel)
  pass_end : Move id s (active false) (Ops.remove_receiver id s) (active false)
  release : {own : Bool} → Move id s (active own) (Ops.release_message_id_lock id s) (finishing own)
  finalize_own : Move id s (finishing true) (Ops.remove_receiver id s) done
  finalize_none : Move id s (finishing false) s done

pub record System : Type 0 where
  pub socket : Socket
  pub pc : ℕ → Phase

-- Some goroutine makes a move.
pub data Step (id : Text) (s : System) : System → Type 0 where
  pick :
      (i : ℕ) {socket' : Socket} {p' : Phase}
      → Move id s.socket (s.pc i) socket' p'
      → Step id s (record { socket = socket'; pc = update s.pc i p' })

abbrev pub initial : Text → System
initial uuid = record { socket = Ops.new_socket uuid; pc = λ _. arriving }

pub data Reach (id uuid : Text) : System → Type 0 where
  start : Reach id uuid (initial uuid)
  later : {s t : System} → Reach id uuid s → Step id s t → Reach id uuid t
