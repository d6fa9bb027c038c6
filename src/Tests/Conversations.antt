-- ===== src/Tests/Conversations.antt =====
-- Interleavings of goroutines with one id.
use velaros.Base.{ℕ, ◌≡◌, refl, true, false, [], Text, codes, text_eq}
use velaros.Base.Maps.{lookup, insert, delete}
use velaros.Socket.Defs.{Socket}
use velaros.Socket.Ops
use velaros.Conversation.System.{
  Phase, arriving, active, Move, enter, queue, wake, receive, find, remove, send, take, release,
  await_next, System, pick, Reach, start, later,
}
use velaros.Conversation.Owners.{held}
use velaros.Conversation.Exclusion.{one_in_chain}
use velaros.Conversation.Wake.{wake_when_free}
use velaros.Conversation.Entering.{Leads, may_enter}
use velaros.Tests.Fixtures.{message_to}

abbrev id : Text
id = codes "c"

abbrev uuid : Text
uuid = codes "s"

-- A state with the way that leads to it.
record Trace : Type 0 where
  last : System
  reach : Reach id uuid last

abbrev then_move :
    (t : Trace) (i : ℕ) {s' : Socket} {p' : Phase}
    → Move id t.last.socket (t.last.pc i) s' p'
    → Trace
then_move t i move = record { last = _; reach = later t.reach (pick i move) }

unfoldable steps : Unit {0}
unfolding Ops.acquire_message_id_lock Ops.release_message_id_lock Ops.get_receiver_for_node
    Ops.add_receiver Ops.remove_receiver Ops.make_channel await_next lookup insert delete text_eq
steps = tt

-- Goroutine 0 is in the chain, 1 waits for the lock.
entered : Trace
unfolding steps
entered = then_move (record { last = _; reach = start }) 0 (enter refl)

queued : Trace
unfolding steps entered
queued = then_move entered 1 (queue refl)

one_in_chain_example : ◌≡◌ {A = ℕ} 0 0 × (held id queued.last.socket ≡ true)
unfolding steps queued
one_in_chain_example = one_in_chain queued.reach 0 0 refl refl

may_enter_example : (t : System) × Leads id queued.last t × (t.pc 1 ≡ active false)
unfolding steps queued
may_enter_example = may_enter queued.reach 1 0 refl

-- Goroutine 0 waits for a message, and 1 is woken up.
listening : Trace
unfolding steps queued
listening = then_move queued 0 (receive 3 0)

wake_when_free_example :
    Move id listening.last.socket (listening.last.pc 1) listening.last.socket arriving
unfolding steps listening
wake_when_free_example = wake_when_free listening.reach 1 0 refl refl

-- Goroutine 1 enters, finds the receiver of 0, and hands its message over; 0 takes it and frees the
-- lock; 2 enters and waits for a message in its turn.
handed_over : Trace
unfolding steps listening
handed_over =
    then_move
      (then_move
        (then_move (then_move (then_move listening 1 (wake refl)) 1 (enter refl)) 1 (find 3 0 refl))
        1 remove)
      1 (send (message_to []) refl)

listening_again : Trace
unfolding steps handed_over
listening_again =
    then_move (then_move (then_move (then_move handed_over 0 (take refl)) 0 release) 2 (enter refl))
      2 (receive 3 0)
