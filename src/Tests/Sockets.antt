-- ===== src/Tests/Sockets.antt =====
-- A sequence of operations on a socket.
use velaros.Base.{◌≡◌, refl, true, false, none, some, List, [], ◌∷◌, text_eq}
use velaros.Base.Maps.{lookup}
use velaros.Socket.Defs.{server_close_source, status_normal_closure}
use velaros.Socket.View.{
  view, Call, close, set, get, get_receiver, add_receiver, make_channel, acquire, release,
  is_released, is_closed, no_answer, value, receiver, channel, lock, flag,
}
use velaros.Socket.View.Refines.{answers, promised, answers-promised}
use velaros.Tests.Fixtures.{a, socket}

abbrev calls : List Call
calls =
    set a 1
    ∷ get a
    ∷ acquire a
    ∷ acquire a
    ∷ make_channel
    ∷ add_receiver a 3 0 0
    ∷ release a
    ∷ is_released 0
    ∷ get_receiver a 3 0
    ∷ get_receiver a 3 1
    ∷ close status_normal_closure [] server_close_source
    ∷ get_receiver a 3 0
    ∷ is_closed
    ∷ []

answers_test :
    promised calls (view socket)
    ≡ no_answer
      ∷ value (some 1)
      ∷ lock 0 true
      ∷ lock 0 false
      ∷ channel 0
      ∷ no_answer
      ∷ no_answer
      ∷ flag true
      ∷ receiver (some 0)
      ∷ receiver none
      ∷ no_answer
      ∷ receiver none
      ∷ flag true
      ∷ []
unfolding promised lookup text_eq
answers_test = refl

answers-promised_example : answers calls socket ≡ promised calls (view socket)
answers-promised_example = answers-promised calls socket
