-- ===== src/Connection/Serving.antt =====
-- router.go: `HandleConnection`, from the open handlers to the close of the connection.
pub mod Ending
use velaros.Base.{
  ℕ, suc, ◌+◌, ◌≤◌, ◌<◌, ◌≡◌, refl, ap, Bool, true, false, Option, none, some, List, [], ◌∷◌, ◌++◌,
  Text, arith, length, length-append,
}
use velaros.Pattern.Matching.{MessageParams, no_match, panics, matched}
use velaros.Pattern.Matching.Agreement.{Documented}
use velaros.Pattern.Defs.{Engine}
use velaros.Socket.Defs.{Status, message_text, SocketMessage, Socket}
use velaros.Socket.Ops
use velaros.Context.Defs.{
  Environment, Handlers, no_handlers, handler, Node, nil, node, BindType, close_bind_type, World,
  Outcome, returned, panicked, blocked, out_of_fuel, ◌>>=◌,
}
use velaros.Context.Sub.{empty_message, new_context, finalize}
use velaros.Context.Chain.{try_match}
use velaros.Context.Next.{bind_type_of, next_fuel}
use velaros.Context.Order.{Candidate, all_from, candidates, Matching-cases, walk-IsFirst}
use velaros.Context.Closing.{Cleanup, all_effects, Closes, Closing, EndsAll, next_fuel-Closes}
use velaros.Context.Termination.Weight.{weight_of, weight_all, weight, left, left_at}
use velaros.Connection.Message.{on_connection, handle_lifecycle, run_next}
use velaros.Connection.Reading.{
  Event, Reading, waiting, ended, crashed, read_loop, Closed, closed_of,
}

-- The chains of the router that serves the connection.
pub record Chains : Type 0 where
  pub opens : Node
  pub messages : Node
  pub closes : Node

-- What the connection draws and sees: the ids of the socket and of the two contexts, what happens
-- to it while it reads, and what its handlers have done besides by then.
pub record Course : Type 0 where
  pub socket_id : Text
  pub open_id : Text
  pub close_id : Text
  pub events : List Event
  pub log : List ℕ

-- The connection is closed with a status and a reason after the close handlers; it still reads; or
-- a panic or a wait keeps `HandleConnection` from its end.
pub data Served : Type 0 where
  closed_with : Status → Text → World → List SocketMessage → Served
  reading : Socket → List SocketMessage → Served
  stuck_open : Outcome → Served
  read_panics : Socket → List SocketMessage → Served
  stuck_close : Outcome → List SocketMessage → Served

abbrev pub close_connection : List SocketMessage → Outcome → Served
close_connection started (returned w) =
    closed_with w.socket.close_status w.socket.close_reason w started
close_connection started o = stuck_close o started

abbrev pub after_reading : Environment → Chains → Course → Reading → Served
after_reading env chains course (waiting s started) = reading s started
after_reading env chains course (crashed s started) = read_panics s started
after_reading env chains course (ended s started) =
    close_connection started (handle_lifecycle env course.close_id chains.closes s course.log)

abbrev pub after_open : Environment → Chains → Course → Outcome → Served
after_open env chains course (returned w) =
    after_reading env chains course (read_loop course.events w.socket [])
after_open env chains course o = stuck_open o

-- `HandleConnection`
unfoldable pub handle_connection : Environment → Chains → Course → Served
unfolding handle_lifecycle read_loop
handle_connection env chains course =
    after_open env chains course
      (handle_lifecycle env course.open_id chains.opens (Ops.new_socket course.socket_id) [])
