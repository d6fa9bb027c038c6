-- ===== src/Context/Utils.antt =====
-- context_utils.go and the constructors of context.go for frameworks.
use velaros.Base.{ℕ, Option, none, some, [], Text}
use velaros.Base.Maps.{TextMap}
use velaros.Socket.Defs.{Value, message_text, status_normal_closure, InboundMessage, Socket}
use velaros.Context.Defs.{
  Op, close_with_status, Handlers, Node, nil, node, normal_bind_type, Context, World,
}
use velaros.Context.Sub.{new_context, finalize}

-- `NewContextWithNode`, for text messages.
abbrev pub new_context_with_node : Text → InboundMessage → Node → Context
new_context_with_node uuid m first_handler_node = new_context uuid m first_handler_node message_text

-- `NewContext`: the handlers stand in one node that matches every path; `a` is its address.
abbrev pub new_context_with_handlers : ℕ → Text → InboundMessage → Handlers → Context
new_context_with_handlers a uuid m hs =
    new_context_with_node uuid m (node a normal_bind_type none hs nil)

-- `Close`
abbrev pub close : Op
close = close_with_status status_normal_closure []

-- `CtxSocket`, `CtxFree` and `CtxMeta`
abbrev pub ctx_socket : World → Socket
ctx_socket w = w.socket

abbrev pub ctx_free : World → World
ctx_free w = finalize w

abbrev meta_in : Option InboundMessage → Option (TextMap Value)
meta_in none = none
meta_in (some m) = m.meta

abbrev pub ctx_meta : World → Option (TextMap Value)
ctx_meta w = meta_in w.ctx.message
