-- ===== src/Tests/Routers.antt =====
-- Registrations on a router, and the handlers that are reached then.
use velaros.Base.{◌≡◌, refl, true, false, some, List, [], ◌∷◌, Text, codes, text_eq}
use velaros.Base.Maps.{lookup, insert}
use velaros.Pattern.Parse.{parse_pattern_chunks}
use velaros.Pattern.Compile.{new_pattern, reg_exp_from_chunks}
use velaros.Context.Defs.{returned, func, router, RouteDescriptor}
use velaros.Router.Defs.{
  Router, new_router, Argument, path_argument, metadata_option, handler_argument,
}
use velaros.Router.Ops.{
  valid_handlers, append_node, use_open, use_close, add_route_descriptor, add_all, bind_handler,
  bind_handlers, metadata_of, without_options, bind, use_handlers,
}
use velaros.Router.Typed.{TypedRouter, register_all-Typed}
use velaros.Router.Calls.{Call, bind_call, use_call, use_open_call, router_after, register_all}
use velaros.Router.Descriptors.{Listed, register_all-Listed}
use velaros.Context.Order.{candidates}
use velaros.Router.Accepts.{returns-bind}
use velaros.Router.Taking.{returns}
use velaros.Router.Served.{served_of, served, register_all-served}
use velaros.Router.Ops.{lookup_route}
use velaros.Router.Finding.{first_pointer, entries, lookup_route-first}
use velaros.Tests.Fixtures.{a, b, engine, env, log}

unfoldable registers : Unit {0}
unfolding bind use_handlers valid_handlers append_node use_open use_close add_route_descriptor
    add_all bind_handler bind_handlers metadata_of without_options new_pattern parse_pattern_chunks
    reg_exp_from_chunks lookup insert text_eq
registers = tt

abbrev first : Argument
first = handler_argument (func 1 (log 1))

abbrev second : Argument
second = handler_argument (func 2 (log 2))

abbrev with_a : Router
with_a = router_after (bind engine true a (first ∷ metadata_option (some 5) ∷ []) (new_router 100))

abbrev mounted : Argument
mounted = handler_argument (
    router 3 with_a.first_handler_node with_a.first_open_handler_node
      with_a.first_close_handler_node with_a.route_descriptors)

-- A public route twice, a mounted router with a public route, and a panic.
abbrev pub calls : List Call
calls =
    bind_call true a (first ∷ metadata_option (some 5) ∷ [])
    ∷ bind_call true a (second ∷ [])
    ∷ use_call (path_argument b ∷ mounted ∷ [])
    ∷ bind_call true b (mounted ∷ [])
    ∷ use_open_call []
    ∷ []

abbrev paths : List RouteDescriptor → List Text
paths [] = []
paths (d ∷ ds) = d.pattern.str ∷ paths ds

register_test :
    paths (register_all engine calls (new_router 1)).route_descriptors ≡ a ∷ codes "/b/a" ∷ b ∷ []
unfolding registers
register_test = refl

register_all-Listed_example : Listed (register_all engine calls (new_router 1))
register_all-Listed_example = register_all-Listed engine calls 1

lookup_route-first_example :
    lookup_route (some 1) (register_all engine calls (new_router 1))
    ≡ first_pointer (some 1) (entries (register_all engine calls (new_router 1)).first_handler_node)
lookup_route-first_example = lookup_route-first (some 1) (register_all engine calls (new_router 1))

register_all-Typed_example : TypedRouter env returned (register_all engine calls (new_router 1))
register_all-Typed_example = register_all-Typed env returned calls 1

register_all-served_example :
    served_of (candidates engine b (register_all engine calls (new_router 1)).first_handler_node [])
    ≡ served engine b calls []
register_all-served_example = register_all-served engine calls 1 b

-- A router is not bound publicly.
returns-bind_example : returns (bind engine true b (mounted ∷ []) (new_router 1)) ≡ false
unfolding registers
returns-bind_example = returns-bind engine true b (mounted ∷ []) (new_router 1)
