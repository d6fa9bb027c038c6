-- ===== src/Tests/Dispatch.antt =====
-- A message from the connection, through the registrations of a program, to its handlers.
use velaros.Base.{inr, refl, true, false, none, some, List, [], ◌∷◌, codes, text_eq, if◌then◌else◌}
use velaros.Base.Maps.{lookup, insert, delete}
use velaros.Pattern.Defs.{Pattern, wildcard, zero_or_more}
use velaros.Pattern.Parse.{parse_pattern_chunks}
use velaros.Pattern.Compile.{new_pattern, reg_exp_from_chunks}
use velaros.Pattern.Matching.{match_into}
use velaros.Socket.Defs.{Bytes, message_text, SocketMessage}
use velaros.Context.Defs.{decoded, encoded, Handler, func}
use velaros.Context.Layers.{Layer, around, leaf, failing}
use velaros.Context.Layers
use velaros.Connection.Message.{handle_message}
use velaros.Connection.Dispatch.{Dispatched}
use velaros.Connection.Registered.{Are, uses, handle_message-served}
use velaros.Router.Defs.{new_router, handler_argument}
use velaros.Router.Ops.{bind, use_handlers, valid_handlers, add_all, without_options}
use velaros.Router.Calls.{Call, use_call, bind_call, register_all}
use velaros.Router.Served.{served}
use velaros.Middleware.Envelope.{Unpacked, unpacked, unpack_error, Format}
use velaros.Tests.Fixtures.{a, b, engine, engine-Documented, env, socket}

abbrev unpack_one : Bytes → Unpacked
unpack_one bytes =
    if text_eq bytes (codes "in")
    then unpacked (record { id = b; path = a; meta = none; message_data = some (codes "hi") })
    else unpack_error (codes "syntax")

abbrev format : Format
format = record {
  subprotocol = codes "one";
  unpack = unpack_one;
  unmarshaler = λ m. decoded 0;
  marshaller = λ m. encoded [];
}

abbrev layers : List Layer
layers = around 1 2 ∷ failing 3 (codes "broken") [] ∷ leaf 4 ∷ []

abbrev layer_handler : Layer → Handler
layer_handler l = func 0 (Layers.script_of l)

-- Middleware for all paths, a handler of another path, a call that panics, and two handlers of the
-- path.
abbrev calls : List Call
calls =
    use_call (handler_argument (layer_handler (around 1 2)) ∷ [])
    ∷ bind_call false b (handler_argument (layer_handler (leaf 9)) ∷ [])
    ∷ bind_call false a []
    ∷ bind_call true a (
        handler_argument (layer_handler (failing 3 (codes "broken") []))
        ∷ handler_argument (layer_handler (leaf 4))
        ∷ [])
    ∷ []

abbrev for_all : Pattern
for_all = record {
  str = codes "/**";
  chunks = (record { kind = wildcard; modifier = zero_or_more; key = []; pattern = [] }) ∷ [];
  reg_exp = codes "^(?:\\/[^\\/]+(?:\\/[^\\/]+)*)?\\/?$";
}

unfoldable serves : Unit {0}
unfolding bind use_handlers valid_handlers add_all without_options new_pattern parse_pattern_chunks
    reg_exp_from_chunks lookup insert delete text_eq match_into
serves = tt

abbrev sent : SocketMessage
sent = record { type = message_text; raw_data = codes "in"; message_data = []; meta = none }

handlers : Are (served engine a calls ((codes "id", a) ∷ [])) layers
unfolding serves
handlers = ((0, refl), ((0, refl), ((0, refl), tt)))

handle_message-served_example : Dispatched layers [] socket (
    handle_message env
      (codes "u")
      (register_all engine (uses 0 format ∷ calls) (new_router 1)).first_handler_node
      sent
      socket
      [])
unfolding serves
handle_message-served_example =
    handle_message-served env format (codes "u") 0 for_all calls 1 sent socket [] b b'/' (codes "a")
      none (some (codes "hi")) ((codes "id", []) ∷ []) ((codes "id", a) ∷ []) layers
      engine-Documented refl refl refl refl (inr refl) refl refl refl handlers
