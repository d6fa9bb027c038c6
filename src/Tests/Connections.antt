-- ===== src/Tests/Connections.antt =====
-- One connection: its messages, its end, and the locks of message ids.
use velaros.Base.{
  if◌then◌else◌, ◌==◌, ◌≡◌, refl, true, false, none, some, List, [], ◌∷◌, Text, codes,
}
use velaros.Socket.Defs.{
  status_normal_closure, server_close_source, message_text, InboundMessage, SocketMessage, Socket,
}
use velaros.Socket.Ops
use velaros.Context.Defs.{set_message_id, unit, nil, World, returned}
use velaros.Context.Ops.{perform}
use velaros.Context.Calls.{reply}
use velaros.Context.Sub.{new_context}
use velaros.Context.Order.{candidates}
use velaros.Context.Next.{deliver}
use velaros.Context.Closing.{Closes}
use velaros.Conversation.Owners.{held}
use velaros.Connection.Message.{after_chain, handle_lifecycle, handle_message, run_next}
use velaros.Connection.Reading.{Event, message, failure, close_call, ReadError, Closed}
use velaros.Connection.Ping.{Liveness, pos, tick, stop, Pinger, Watches, watch, watch-fails}
use velaros.Connection.Serving.{Chains, Course, handle_connection}
use velaros.Connection.Serving.Ending.{Ends, handle_connection-Ends}
use velaros.Connection.Locks.{locked_world, set_message_id_twice-held, deliver-held}
use velaros.Connection.Mounted.{sets_id, sub_set_message_id-held, sub_deliver-held}
use velaros.Context.Order.{Candidate, candidates}
use velaros.Context.Next.{route_through, next_fuel}
use velaros.Context.Defs.{Node, func, handler, no_handlers, node, normal_bind_type}
use velaros.Base.{text_eq}
use velaros.Base.Maps.{lookup, insert, copy_into}
use velaros.Socket.Closing.{IsClosedFor, close_first}
use velaros.Tests.Fixtures.{a, engine, engine-Documented, env, message_to, socket, at_chain, runs}
use velaros.Tests.Routers.{calls}
use velaros.Context.Recovery.{Settled}
use velaros.Connection.Settling.{handle_message-Settled}
use velaros.Router.Defs.{new_router}
use velaros.Router.Calls.{register_all}
use velaros.Tests.Chains.{no_receivers, cleanups, close_chain}

abbrev hello : SocketMessage
hello = record { type = message_text; raw_data = codes "hello"; message_data = []; meta = none }

-- The client goes while a handler closes the socket.
abbrev end_of_file : ReadError
end_of_file = record { close_status = none; is_canceled = false; is_end = true }

abbrev events : List Event
events =
    message hello
    ∷ close_call status_normal_closure (codes "bye") server_close_source
    ∷ failure end_of_file
    ∷ message hello
    ∷ []

abbrev said_bye : Closed
said_bye = record {
  status = status_normal_closure;
  reason = codes "bye";
  source = server_close_source;
}

abbrev chains : Chains
chains = record { opens = nil; messages = nil; closes = close_chain }

abbrev course : Course
course = record {
  socket_id = codes "s";
  open_id = codes "o";
  close_id = codes "c";
  events = events;
  log = 9 ∷ [];
}

closes : Closes (candidates engine [] close_chain []) cleanups
unfolding runs candidates
closes = (refl, (0, refl), (refl, (0, refl), (refl, (0, refl), tt)))

handle_connection-Ends_example :
    Ends cleanups (9 ∷ []) said_bye (hello ∷ []) (handle_connection env chains course)
unfolding runs handle_lifecycle run_next
handle_connection-Ends_example =
    handle_connection-Ends env chains course cleanups _ [] end_of_file _ said_bye engine-Documented
      refl closes refl refl refl refl refl

handle_message-Settled_example : Settled (
    handle_message env
      (codes "u")
      (register_all engine calls (new_router 1)).first_handler_node
      hello
      socket
      [])
handle_message-Settled_example =
    handle_message-Settled env calls 1 (codes "u") hello socket [] engine-Documented no_receivers

abbrev every_two : Liveness
every_two = record { ping_interval = pos 2; ping_timeout = pos 0 }

-- The second ping is not answered.
abbrev second_lost : Pinger
second_lost timeout n = if n == 1 then some (codes "timeout") else none

watch-fails_example :
    (watch every_two none (tick ∷ tick ∷ stop ∷ []) socket ≡ socket)
    × Watches every_two.ping_interval every_two.ping_timeout second_lost
        (tick ∷ tick ∷ stop ∷ [])
        socket
        (watch every_two (some second_lost) (tick ∷ tick ∷ stop ∷ []) socket)
watch-fails_example = watch-fails every_two second_lost (tick ∷ tick ∷ stop ∷ []) socket

-- A handler sets the id of its message to `k`.
abbrev k : Text
k = codes "k"

abbrev l : Text
l = codes "l"

abbrev drawn : InboundMessage
drawn = record (message_to a) { id = codes "u" }

abbrev named : Text → InboundMessage
named id = record drawn { has_set_id = true; id = id }

abbrev fresh : World
fresh = record (at_chain nil (message_to a)) {
  ctx = record ((at_chain nil (message_to a)).ctx) { message = some drawn };
}

abbrev with_k : World
with_k = locked_world k drawn fresh

unfoldable locks : Unit {0}
unfolding runs Ops.acquire_message_id_lock new_context
locks = tt

sets_k : perform env (set_message_id k) fresh ≡ reply unit with_k
unfolding locks
sets_k = refl

sets_l : perform env (set_message_id l) with_k ≡ reply unit (locked_world l (named k) with_k)
unfolding locks
sets_l = refl

set_message_id_twice-held_example :
    (held k (after_chain (locked_world l (named k) with_k)).socket ≡ true)
    × (held l (after_chain (locked_world l (named k) with_k)).socket ≡ false)
unfolding locks
set_message_id_twice-held_example =
    set_message_id_twice-held env k l fresh with_k (locked_world l (named k) with_k) refl sets_k
      sets_l refl

-- A mounted router with one handler, which sets the id of the message.
abbrev mounted : Node
mounted = node 7 normal_bind_type none (handler (func 0 (sets_id k)) no_handlers) nil

abbrev first_there : Candidate
first_there = record { at = mounted; index = 0; handler = func 0 (sets_id k); params = [] }

first_is : candidates engine a mounted (copy_into [] []) ≡ first_there ∷ []
unfolding runs candidates copy_into
first_is = refl

sub_set_message_id-held_example :
    (v : World) × (route_through env (next_fuel env 3) mounted fresh ≡ returned v)
    × (held k (after_chain v).socket ≡ true)
unfolding locks
sub_set_message_id-held_example =
    sub_set_message_id-held env 2 k mounted drawn fresh first_there [] 0 engine-Documented refl refl
      refl refl refl refl first_is refl refl

deliver-held_example :
    (w' : World) × (deliver 0 (named k) with_k ≡ returned w')
    × ((w'.socket.channels 0).buffer ≡ some (named k))
    × ((id : Text) → held id (after_chain w').socket ≡ held id with_k.socket)
deliver-held_example = deliver-held 0 (named k) with_k refl refl

-- A receiver waits for the id at the mounted router's handler.
abbrev waiting_there : World
waiting_there = record with_k { socket = Ops.add_receiver k 7 0 0 with_k.socket }

sub_deliver-held_example :
    (v : World) × (route_through env (next_fuel env 3) mounted waiting_there ≡ returned v)
    × ((v.socket.channels 0).buffer ≡ some (named k))
    × (held k (after_chain v).socket ≡ false)
unfolding locks Ops.add_receiver Ops.get_receiver_for_node lookup insert text_eq
sub_deliver-held_example =
    sub_deliver-held env 2 mounted (named k) waiting_there first_there [] 0 engine-Documented refl
      refl refl refl refl refl first_is refl refl refl

-- A socket with one receiver.
abbrev listening : Socket
listening = Ops.add_receiver k 3 0 0 socket

close_first_example :
    IsClosedFor status_normal_closure
      (codes "bye")
      server_close_source
      listening
      (Ops.close status_normal_closure (codes "bye") server_close_source listening)
    × (Ops.close status_normal_closure [] server_close_source
          (Ops.close status_normal_closure (codes "bye") server_close_source listening)
        ≡ Ops.close status_normal_closure (codes "bye") server_close_source listening)
unfolding Ops.add_receiver
close_first_example =
    close_first status_normal_closure status_normal_closure (codes "bye") [] server_close_source
      server_close_source listening refl
