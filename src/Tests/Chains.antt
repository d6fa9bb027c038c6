-- ===== src/Tests/Chains.antt =====
-- Handler chains run from their first node.
use velaros.Base.{
  ℕ, ◌≡◌, ◌≢◌, refl, true, false, Option, none, some, List, [], ◌∷◌, Text, codes, arith, All, inl,
}
use velaros.Base.Maps.{lookup, copy_into}
use velaros.Pattern.Defs.{Pattern}
use velaros.Socket.Defs.{InboundMessage, Socket}
use velaros.Context.Defs.{
  Handler, func, handler, no_handlers, Node, nil, node, normal_bind_type, close_bind_type, World,
  Outcome, returned, out_of_fuel,
}
use velaros.Context.Sub.{new_context}
use velaros.Context.Chain.{walk}
use velaros.Context.Order.{Candidate, candidates, IsFirst, walk-IsFirst}
use velaros.Context.Next.{next_fuel, route_through}
use velaros.Context.Layers.{Layer, around, leaf, failing, Layered, Ready, Ends}
use velaros.Context.Layers.Running.{next_fuel-Layered}
use velaros.Context.Layers
use velaros.Context.Bounds.{InBounds, walk-InBounds}
use velaros.Context.Again.Unmoved.{Unmoved, next_again}
use velaros.Context.Closing.{Cleanup, Closes, Closing, EndsAll, next_fuel-Closes}
use velaros.Context.Closing
use velaros.Context.Recovery.{NoPanic, IsMessageHandler, ReceiversOpen, next_fuel-NoPanic}
use velaros.Context.Nesting.{passed_by, route_through-passed_by}
use velaros.Context.Termination.Weight.{left_at, weight}
use velaros.Context.Termination.Call.{next_fuel_total}
use velaros.Tests.Fixtures.{
  a, b, engine, engine-Documented, env, message_to, socket, at_chain, log, runs,
}

abbrev pattern_a : Pattern
pattern_a = record { str = a; chunks = []; reg_exp = codes "^\\/a\\/?$" }

abbrev pattern_b : Pattern
pattern_b = record { str = b; chunks = []; reg_exp = codes "^\\/b\\/?$" }

-- Middleware for all paths, a handler for /b, two for /a of which the second panics, and one more.
abbrev layers : List Layer
layers = around 1 2 ∷ around 3 4 ∷ failing 5 (codes "broken") (codes "trace") ∷ leaf 6 ∷ []

abbrev layer_handler : Layer → Handler
layer_handler l = func 0 (Layers.script_of l)

abbrev chain : Node
chain = node 1 normal_bind_type none (handler (layer_handler (around 1 2)) no_handlers) (
    node 2 normal_bind_type (some pattern_b) (handler (func 0 (log 9)) no_handlers) (
      node 3 normal_bind_type (some pattern_a)
        (handler (layer_handler (around 3 4))
          (handler (layer_handler (failing 5 (codes "broken") (codes "trace"))) no_handlers))
        (node 4 normal_bind_type none (handler (layer_handler (leaf 6)) no_handlers) nil)))

abbrev to_a : InboundMessage
to_a = record (message_to a) { id = codes "u" }

abbrev before_chain : World
before_chain = at_chain chain to_a

abbrev effects_and_error : Outcome → List ℕ × Option Text
effects_and_error (returned w) = (w.effects, w.ctx.err)
effects_and_error _ = ([], none)

chain_runs :
    effects_and_error (next_fuel env 9 before_chain)
    ≡ (2 ∷ 4 ∷ 5 ∷ 3 ∷ 1 ∷ [], some (codes "broken"))
unfolding runs
chain_runs = refl

abbrev to_run : List Candidate
to_run = candidates engine a chain []

walk-IsFirst_example : IsFirst engine a to_run (walk engine a chain false 0 none [])
walk-IsFirst_example = walk-IsFirst engine a chain engine-Documented []

walk-InBounds_example : InBounds (walk engine a chain true 1 none [])
walk-InBounds_example = walk-InBounds engine a chain engine-Documented true 1 none []

ready : Ready engine to_run to_a before_chain
unfolding new_context
ready = record {
  message_is = refl;
  unclaimed = inl refl;
  no_path = refl;
  no_error = refl;
  is_open = refl;
  at_first = walk-IsFirst engine a chain engine-Documented [];
}

layered : Layered to_run layers
unfolding runs candidates
layered = (refl, (0, refl), (refl, (0, refl), (refl, (0, refl), (refl, (0, refl), tt))))

next_fuel-Layered_example : Ends layers before_chain (next_fuel env 5 before_chain)
next_fuel-Layered_example =
    next_fuel-Layered env layers to_run to_a before_chain 5 engine-Documented layered ready
      (omega arith)

next_fuel_total_example : next_fuel env 6 before_chain ≢ out_of_fuel
unfolding left_at weight new_context
next_fuel_total_example = next_fuel_total env 6 before_chain (omega arith)

message_handlers : All IsMessageHandler to_run
unfolding runs candidates
message_handlers = ((refl, tt), ((refl, tt), ((refl, tt), ((refl, tt), tt))))

pub no_receivers : ReceiversOpen socket
unfolding lookup
no_receivers id r e = cc

next_fuel-NoPanic_example : NoPanic (next_fuel env 9 before_chain)
unfolding new_context
next_fuel-NoPanic_example =
    next_fuel-NoPanic env 9 to_run to_a before_chain refl refl no_receivers message_handlers
      (walk-IsFirst engine a chain engine-Documented [])

-- Three close handlers, of which the second panics.
abbrev pub cleanups : List Cleanup
cleanups = Closing.quiet 1 ∷ Closing.failing 2 (codes "late") [] ∷ Closing.quiet 3 ∷ []

abbrev close_handler : Cleanup → Handler
close_handler l = func 0 (Closing.script_of l)

abbrev pub close_chain : Node
close_chain = node 1 close_bind_type none (handler (close_handler (Closing.quiet 1)) no_handlers) (
    node 2 close_bind_type none
      (handler (close_handler (Closing.failing 2 (codes "late") []))
        (handler (close_handler (Closing.quiet 3)) no_handlers))
      nil)

abbrev closed_socket : Socket
closed_socket = record socket { closed = true; cancelled = true }

abbrev before_close : World
before_close = record (at_chain close_chain to_a) { socket = closed_socket }

closes : Closes (candidates engine a close_chain []) cleanups
unfolding runs candidates
closes = (refl, (0, refl), (refl, (0, refl), (refl, (0, refl), tt)))

next_fuel-Closes_example : EndsAll cleanups before_close (next_fuel env 4 before_close)
unfolding new_context
next_fuel-Closes_example =
    next_fuel-Closes env cleanups (candidates engine a close_chain []) to_a before_close 4
      engine-Documented closes
      (record {
        message_is = refl;
        no_id = refl;
        no_path = refl;
        on_close = refl;
        at_first = walk-IsFirst engine a close_chain engine-Documented [];
      })
      (omega arith)

-- A mounted router that has a handler for /b only, before the chain.
abbrev sub_chain : Node
sub_chain = node 8 normal_bind_type (some pattern_b) (handler (func 0 (log 9)) no_handlers) nil

not_routed : candidates engine a sub_chain (copy_into [] []) ≡ []
unfolding runs candidates
not_routed = refl

route_through-passed_by_example :
    route_through env (next_fuel env 9) sub_chain before_chain
    ≡ next_fuel env 9 (passed_by to_a before_chain)
unfolding new_context
route_through-passed_by_example =
    route_through-passed_by env 8 sub_chain to_a before_chain refl refl refl refl engine-Documented
      not_routed

-- A chain with one handler; what `Next` leaves, and `Next` again.
abbrev one_handler : World
one_handler =
    at_chain (node 1 normal_bind_type none (handler (layer_handler (leaf 6)) no_handlers) nil) to_a

abbrev world_of : Outcome → World
world_of (returned w) = w
world_of _ = one_handler

after_one : World
unfolding runs
after_one = world_of (next_fuel env 2 one_handler)

next_again_example : Unmoved after_one (next_fuel env 1 after_one)
unfolding runs after_one
next_again_example = next_again env 2 0 one_handler after_one refl
