-- ===== src/Connection/Message.antt =====
-- socket.go: the goroutine that `HandleNextMessageWithNode` starts, `HandleOpen` and `HandleClose`.
use velaros.Base.{ℕ, suc, Option, none, some, List, [], Text, if◌then◌else◌}
use velaros.Socket.Defs.{MessageType, message_text, InboundMessage, SocketMessage, Socket}
use velaros.Socket.Ops
use velaros.Context.Defs.{Environment, Node, World, Outcome, returned, ◌>>=◌}
use velaros.Context.Sub.{empty_message, new_context, finalize}
use velaros.Context.Next.{next_fuel}
use velaros.Context.Termination.Weight.{left}

-- `Next` on a context, with the fuel that its handlers need.
unfoldable pub run_next : Environment → World → Outcome
run_next env w = next_fuel env (suc (left w.ctx)) w

-- The message as it comes from the connection.
abbrev pub inbound : SocketMessage → InboundMessage
inbound m = record empty_message {
  raw_data = m.raw_data;
  message_data = m.message_data;
  meta = m.meta;
}

-- A new context on a connection; `uuid` is the id that it draws.
abbrev pub on_connection : Text → InboundMessage → Node → MessageType → Socket → List ℕ → World
on_connection uuid m first_handler_node type s effects = record {
  ctx = new_context uuid m first_handler_node type;
  parents = [];
  socket = s;
  effects = effects;
}

-- `if ctx.message != nil && ctx.message.hasSetID { s.releaseMessageIDLock(ctx.message.ID) }`
abbrev pub release_own : Option InboundMessage → Socket → Socket
release_own none s = s
release_own (some m) s = if m.has_set_id then Ops.release_message_id_lock m.id s else s

-- What the goroutine does once its chain is through.
abbrev pub after_chain : World → World
after_chain w = finalize (record w { socket = release_own w.ctx.message w.socket })

-- The goroutine of a message, on the chain of messages.
unfoldable pub handle_message :
    Environment → Text → Node → SocketMessage → Socket → List ℕ → Outcome
unfolding run_next
handle_message env uuid first_handler_node m s effects =
    run_next env (on_connection uuid (inbound m) first_handler_node m.type s effects) >>= λ w.
    returned (after_chain w)

-- `HandleOpen` and `HandleClose`, each on its chain.
unfoldable pub handle_lifecycle : Environment → Text → Node → Socket → List ℕ → Outcome
unfolding run_next
handle_lifecycle env uuid first_handler_node s effects =
    run_next env (on_connection uuid empty_message first_handler_node message_text s effects)
    >>= λ w. returned (finalize w)
