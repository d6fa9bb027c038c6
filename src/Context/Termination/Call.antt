-- ===== src/Context/Termination/Call.antt =====
-- The fuel of `Next`: the handlers that are left.
use velaros.Base.{
  ℕ, zero, suc, ◌+◌, ◌≤◌, ◌<◌, ◌≡◌, ◌≢◌, refl, ap, Bool, true, false, Option, none, some, List,
  arith, if◌then◌else◌,
}
use native.Mathlib.Numerals.{add-one}
use velaros.Pattern.Matching.{MessageParams, Matching, no_match, matched}
use velaros.Socket.Defs.{InboundMessage, Channel}
use velaros.Socket.Ops
use velaros.Context.Defs.{
  Environment, Handler, Node, nil, node, World, Outcome, out_of_fuel, returned,
}
use velaros.Context.Calls.{on_socket, on_ctx}
use velaros.Context.Chain.{Walk, ended, found, walk_panics, walk, try_match}
use velaros.Context.Next.{
  run_handler, deliver_to, at_end, at_handler, after_walk, walk_from, place, with_path_seen,
  recheck, with_message, stops, next_step, next_fuel, next_node, path_seen, waiting_receiver,
  bind_type_of, pattern_of,
}
use velaros.Context.Termination.Weight.{
  weight_of, weight, left_at, left, WalkWithin, WalkWithin-le, walk-WalkWithin,
}
use velaros.Context.Termination.Ops.{lefts, Settles, Settles-le, Settles-deferred}
use velaros.Context.Termination.Step.{SettlesBelow, run_handler-Settles, Settles-if}

next_node-le :
    (n : Node) (matches : Bool) (i : ℕ) → left_at (next_node n) false 0 ≤ left_at n matches i
unfolding left_at weight
next_node-le nil matches i = omega arith
next_node-le (node _ _ _ hs nil) matches i = omega arith
next_node-le (node _ _ _ hs (node a b p hs' rest)) true i = omega arith
next_node-le (node _ _ _ hs (node a b p hs' rest)) false i = omega arith

module _ (l : ℕ) (ps : List ℕ) where
  deliver_to-Settles :
      (ch : ℕ) (chan : Channel) (m : InboundMessage) (w : World)
      → left w.ctx ≤ l
      → lefts w.parents ≡ ps
      → Settles l ps (deliver_to ch chan m w)
  deliver_to-Settles ch chan m w le eq = ground arith

  at_end-Settles :
      (m : InboundMessage) (current : Option Handler) (w : World)
      → left w.ctx ≤ l
      → lefts w.parents ≡ ps
      → Settles l ps (at_end m current w)
  at_end-Settles m none w le eq = ground arith
  at_end-Settles m (some h) w le eq = (le, eq)

module _ (env : Environment) (again : World → Outcome) (f : ℕ) (ih : SettlesBelow f again) where
  module _ (l : ℕ) (ps : List ℕ) (within : l ≤ f) where
    at_handler-Settles :
        (m : InboundMessage) (n : Node) (i : ℕ) (h : Handler) (current : Option Handler)
        (params : MessageParams) (w : World) (receiver : Option ℕ)
        → left_at n true (suc i) + weight_of h ≤ l
        → left_at n true i ≤ l
        → lefts w.parents ≡ ps
        → Settles l ps (at_handler env again m n i h (place n true i current params w) receiver)
    at_handler-Settles m n i h current params w (some ch) fits le eq =
        let w' = on_socket (Ops.remove_receiver m.id) (place n true i current params w) in
        deliver_to-Settles l ps ch (w'.socket.channels ch) m w' le eq
    at_handler-Settles m n i h current params w none fits le eq =
        let w' =
          on_ctx (λ c. record c { current_handler = some h; current_handler_index = i + 1 })
            (place n true i current params w) in
        let next_index : left_at n true (i + 1) ≡ left_at n true (suc i) =
          ap (left_at n true) (add-one i) in
        Settles-le (left_at n true (i + 1)) l (lefts w.parents) ps
          (run_handler env again (bind_type_of n) h w') (omega arith) eq
          (run_handler-Settles env again f ih (bind_type_of n) h w' (omega arith))

    after_walk-Settles :
        (m : InboundMessage) (w : World) (k : Walk)
        → WalkWithin l k
        → lefts w.parents ≡ ps
        → left w.ctx ≤ l
        → Settles l ps (after_walk env again m w k)
    unfolding left_at
    after_walk-Settles m w (ended matches i current params) fits eq le =
        at_end-Settles l ps m current (place nil matches i current params w) (omega arith) eq
    after_walk-Settles m w (found n i h current params) fits eq le =
        let w' = place n true i current params w in
        at_handler-Settles m n i h current params w (waiting_receiver m n i w') fits.0 fits.1 eq
    after_walk-Settles m w (walk_panics params) fits eq le = (le, eq)

    walk_from-Settles :
        (m : InboundMessage) (w : World)
        → left w.ctx ≤ l
        → lefts w.parents ≡ ps
        → Settles l ps (walk_from env again m w)
    walk_from-Settles m w le eq =
        let n = w.ctx.current_handler_node in
        let matches = w.ctx.current_handler_node_matches in
        let i = w.ctx.current_handler_index in
        let k = walk env.engine m.path n matches i w.ctx.current_handler w.ctx.params in
        after_walk-Settles m w k
          (WalkWithin-le (left w.ctx) l k le
            (walk-WalkWithin env.engine m.path n matches i w.ctx.current_handler w.ctx.params))
          eq le

    with_path_seen-Settles :
        (m : InboundMessage) (w : World)
        → left w.ctx ≤ l
        → lefts w.parents ≡ ps
        → Settles l ps (with_path_seen env again m w)
    with_path_seen-Settles m w le eq =
        walk_from-Settles (path_seen m) (on_ctx (λ c. record c { message = some (path_seen m) }) w)
          le eq

    recheck-Settles :
        (m : InboundMessage) (w : World) (tried : Matching)
        → left w.ctx ≤ l
        → lefts w.parents ≡ ps
        → Settles l ps (recheck env again m w tried)
    recheck-Settles m w no_match le eq =
        with_path_seen-Settles m
          (place (next_node w.ctx.current_handler_node) false 0 none w.ctx.params w)
          (omega (
            arith,
            next_node-le w.ctx.current_handler_node w.ctx.current_handler_node_matches
                w.ctx.current_handler_index,
          ))
          eq
    recheck-Settles m w Matching.panics le eq = (le, eq)
    recheck-Settles m w (matched params) le eq =
        with_path_seen-Settles m (on_ctx (λ c. record c { params = params }) w) le eq

    with_message-Settles :
        (w : World) (m : Option InboundMessage)
        → left w.ctx ≤ l
        → lefts w.parents ≡ ps
        → Settles l ps (with_message env again w m)
    with_message-Settles w none le eq = (le, eq)
    with_message-Settles w (some m) le eq =
        let tried =
          try_match env.engine m.path (pattern_of w.ctx.current_handler_node) w.ctx.params in
        let seen = with_path_seen env again m w in
        let checked =
          if w.ctx.current_handler_node_matches then recheck env again m w tried else seen in
        Settles-if l ps m.has_set_path checked (walk_from env again m w)
          (Settles-if l ps w.ctx.current_handler_node_matches (recheck env again m w tried) seen
            (recheck-Settles m w tried le eq) (with_path_seen-Settles m w le eq))
          (walk_from-Settles m w le eq)

  next_step-Settles :
      (w : World) → left w.ctx ≤ f → Settles (left w.ctx) (lefts w.parents) (next_step env again w)
  unfolding next_step
  next_step-Settles w within =
      let l = left w.ctx in
      let ps = lefts w.parents in
      Settles-deferred l ps (if stops w then returned w else with_message env again w w.ctx.message)
        (Settles-if l ps (stops w) (returned w) (with_message env again w w.ctx.message)
          (omega arith, refl) (with_message-Settles l ps within w w.ctx.message (omega arith) refl))

next_fuel-Settles :
    (env : Environment) (f : ℕ) (w : World)
    → left w.ctx < f
    → Settles (left w.ctx) (lefts w.parents) (next_fuel env f w)
unfolding next_fuel
next_fuel-Settles env zero w lt = absurd (omega arith)
next_fuel-Settles env (suc f) w lt =
    next_step-Settles env (next_fuel env f) f (λ w' lt'. next_fuel-Settles env f w' lt') w
      (omega arith)

Settles-ends : (l : ℕ) (ps : List ℕ) (o : Outcome) → Settles l ps o → o ≢ out_of_fuel
Settles-ends l ps out_of_fuel s e = s
Settles-ends l ps _ s e = cc

-- `Next` does not call itself without end, whatever the handlers do: on every context it returns,
-- panics or comes to wait for another goroutine or a mutex, and nested calls go no deeper than the
-- handlers that are left in the chain, those of mounted routers included, so fuel beyond their number is
-- not used up. A mounted router is as it was when it was mounted, so it is not mounted in itself.
pub next_fuel_total :
    (env : Environment) (fuel : ℕ) (w : World)
    → left w.ctx < fuel
    → next_fuel env fuel w ≢ out_of_fuel
next_fuel_total env fuel w lt = Settles-ends _ _ _ (next_fuel-Settles env fuel w lt)
