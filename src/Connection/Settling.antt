-- ===== src/Connection/Settling.antt =====
-- socket.go and router.go: a message that arrives at a router.
use velaros.Base.{ℕ, suc, refl, List, [], Text, arith}
use velaros.Pattern.Matching.Agreement.{Documented}
use velaros.Socket.Defs.{InboundMessage, SocketMessage, Socket}
use velaros.Context.Defs.{
  Environment, Node, World, Outcome, returned, panicked, blocked, out_of_fuel, ◌>>=◌,
}
use velaros.Context.Sub.{new_context}
use velaros.Context.Order.{candidates, walk-IsFirst}
use velaros.Context.Recovery.{ReceiversOpen, Settled, next_fuel-Settled}
use velaros.Context.Termination.Weight.{left}
use velaros.Connection.Message.{inbound, on_connection, run_next, after_chain, handle_message}
use velaros.Router.Defs.{new_router}
use velaros.Router.Calls.{Call, register_all}
use velaros.Router.Valid.{IsMessageChain, candidates-valid, register_all-IsMessageChain}

Settled-bind : (o : Outcome) (f : World → World) → Settled o → Settled (o >>= λ w. returned (f w))
Settled-bind (returned w) f h = tt
Settled-bind (blocked w) f h = tt
Settled-bind (panicked _ _ _) f h = h
Settled-bind out_of_fuel f h = h

run_next-Settled :
    (env : Environment) (uuid : Text) (n : Node) (m : SocketMessage) (s : Socket) (effects : List ℕ)
    → Documented env.engine
    → ReceiversOpen s
    → IsMessageChain n
    → Settled (run_next env (on_connection uuid (inbound m) n m.type s effects))
unfolding run_next new_context
run_next-Settled env uuid n m s effects documented open_ chain =
    let w = on_connection uuid (inbound m) n m.type s effects in
    let message : InboundMessage = record (inbound m) { id = uuid } in
    next_fuel-Settled env (suc (left w.ctx)) (candidates env.engine [] n []) message w (omega arith)
      refl refl open_ (candidates-valid env.engine [] n [] chain)
      (walk-IsFirst env.engine [] n documented [])

-- Whatever the registrations on a router, of which some may have panicked, whatever its handlers do
-- with their context and whatever the message is: on a socket where no registered receiver has a closed
-- channel, and with an engine that behaves as package regexp documents, the goroutine of the message
-- comes to its end, or waits: for another goroutine, or for a mutex that an earlier panic left locked;
-- no panic leaves it. A mounted router is as it was when it was mounted, so it is not mounted in itself.
pub handle_message-Settled :
    (env : Environment) (calls : List Call) (base : ℕ) (uuid : Text) (m : SocketMessage)
    (s : Socket) (effects : List ℕ)
    → Documented env.engine
    → ReceiversOpen s
    → Settled (
        handle_message env uuid
          (register_all env.engine calls (new_router base)).first_handler_node
          m
          s
          effects)
unfolding handle_message
handle_message-Settled env calls base uuid m s effects documented open_ =
    Settled-bind _ after_chain (
      run_next-Settled env uuid _ m s effects documented open_
        (register_all-IsMessageChain env calls base))
