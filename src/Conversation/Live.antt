-- ===== src/Conversation/Live.antt =====
-- Who holds the lock of an id, and who waits for the message that is handed over.
pub mod Steps
use velaros.Base.{
  ap, ℕ, ◌≡◌, ◌≢◌, refl, ◌∙◌, sym, true, false, Option, none, some, Text, arith, text_eq_refl, inl,
  inr, Option-cases,
}
use mathlib.Core.Path.{subst}
use native.Mathlib.Decide.{ℕ_discrete}
use velaros.Base.Maps.{lookup, lookup-insert, lookup-delete}
use velaros.Socket.Defs.{InboundMessage, ReceiverEntry, Socket}
use velaros.Socket.Ops
use velaros.Socket.Ops.{update}
use velaros.Conversation.System.{
  Phase, arriving, active, finishing, done, waiting, found, sending, receiving, set_buffer,
  await_next, Move, enter, queue, wake, receive, find, remove, send, take, skip, pass_end, release,
  finalize_own, finalize_none, System, Step, pick, Reach, start, later,
}
use velaros.Conversation.Owners.{
  owns, held, channel_of, Inv, acquire_first, acquire_taken, release_lock, await_next_lem,
  owns-congr,
}
use velaros.Conversation.Invariant.{Reach-Inv}

-- The channel that a goroutine is about to send its message to.
abbrev pub target : Phase → Option ℕ
target (found ch) = some ch
target (sending ch) = some ch
target _ = none

-- Some goroutine waits on the channel, which is empty.
abbrev pub Awaited : Socket → (ℕ → Phase) → ℕ → Type 0
Awaited s pc ch = (j : ℕ) × (pc j ≡ receiving ch) × ((s.channels ch).buffer ≡ none)

-- The lock is held by a goroutine that is there, and the channels that messages may be handed to
-- are waited on.
pub record Live (id : Text) (s : Socket) (pc : ℕ → Phase) : Type 0 where
  pub owned : held id s ≡ true → (i : ℕ) × (owns s (pc i) ≡ true)
  pub registered : (r : ReceiverEntry) → lookup id s.receivers ≡ some r → Awaited s pc r.ch
  pub aimed : (i ch : ℕ) → target (pc i) ≡ some ch → Awaited s pc ch
  pub cleared : (i ch : ℕ) → pc i ≡ sending ch → lookup id s.receivers ≡ none

target-owns : (s : Socket) (p : Phase) (ch : ℕ) → target p ≡ some ch → owns s p ≡ true
target-owns s (found c) ch e = refl
target-owns s (sending c) ch e = refl
target-owns s _ ch e = cc

abbrev pub channel_in : Option ReceiverEntry → ℕ
channel_in none = 0
channel_in (some r) = r.ch

pub await_next_registered :
    (id : Text) (node index : ℕ) (s : Socket)
    → lookup id (await_next id node index s).receivers
      ≡ some (record { node = node; handler_index = index; ch = s.next_channel })
unfolding await_next Ops.make_channel Ops.add_receiver Ops.release_message_id_lock
await_next_registered id node index s = ground (
  arith,
  lookup-insert id id (record { node = node; handler_index = index; ch = s.next_channel })
      s.receivers,
  text_eq_refl id,
)

pub gone : (id : Text) (s : Socket) → lookup id (Ops.remove_receiver id s).receivers ≡ none
unfolding Ops.remove_receiver
gone id s = ground (arith, lookup-delete id id s.receivers, text_eq_refl id)

pub removed :
    (id : Text) (s : Socket) (r : ReceiverEntry)
    → lookup id (Ops.remove_receiver id s).receivers ≡ some r
    → lookup id s.receivers ≡ some r
removed id s r e = absurd (ground (arith, gone id s))

pub acquire_receivers :
    (id : Text) (s : Socket) {ch : ℕ} {s' : Socket}
    → Ops.acquire_message_id_lock id s ≡ (ch, true, s')
    → s'.receivers ≡ s.receivers
unfolding Ops.acquire_message_id_lock
acquire_receivers id s e = ground arith

pub release_receivers :
    (id : Text) (s : Socket) → (Ops.release_message_id_lock id s).receivers ≡ s.receivers
unfolding Ops.release_message_id_lock
release_receivers id s = ground arith

pub found_registered :
    (id : Text) (node index ch : ℕ) (s : Socket)
    → Ops.get_receiver_for_node id node index s ≡ some ch
    → (r : ReceiverEntry) × (lookup id s.receivers ≡ some r) × (r.ch ≡ ch)
unfolding Ops.get_receiver_for_node
found_registered id node index ch s e = elim (Option-cases (lookup id s.receivers)) [
  | inl missing ↦ absurd (ground arith)
  | inr (r, there) ↦ (r, there, ground arith)
]

-- While one goroutine owns the id, no other one is about to send.
pub alone :
    {id : Text} {s : Socket} {pc : ℕ → Phase} (i : ℕ) (p' : Phase)
    → Inv id s pc
    → owns s (pc i) ≡ true
    → target p' ≡ none
    → (j ch : ℕ) → target (update pc i p' j) ≢ some ch
alone {s} {pc} i p' inv owner no_target j ch e = elim (ℕ_discrete i j) [
  | yes same ↦ ground arith
  | no ne ↦ ground (arith, target-owns s (pc j) ch, inv.unique i j)
]
