-- ===== src/Context/Again.antt =====
-- context_next.go: a handler that calls `Next` again.
pub mod Unmoved
use velaros.Base.{
  ℕ, zero, suc, ◌≡◌, ◌⊎◌, inl, inr, refl, sym, ◌&&◌, not, Bool, Bool-cases, true, false, [], Option,
  none, some, arith, if◌then◌else◌,
}
use velaros.Pattern.Matching.{MessageParams, Matching, no_match, panics, matched}
use velaros.Socket.Defs.{InboundMessage, Channel}
use velaros.Context.Defs.{
  Environment, Handler, Node, nil, BindType, World, Outcome, returned, panicked, blocked,
  out_of_fuel, ◌>>=◌,
}
use velaros.Context.Calls.{nil_dereference, on_socket, on_ctx}
use velaros.Socket.Ops
use mathlib.Core.Path.{subst}
use velaros.Context.Sub.{try_update_parent}
use velaros.Context.Chain.{Walk, ended, found, walk_panics, walk, try_match}
use velaros.Context.Next.{
  is_some, exec_with_ctx_recovery, deferred, deliver_to, pattern_of, path_seen, reset, beyond_end,
  at_end, stops, place, go_on, body_of, run_body, run_handler, at_handler, after_walk, walk_from,
  with_path_seen, recheck, with_message, next_step, next_fuel,
}
use velaros.Context.Next

-- The context stops `Next`, has given its message away, or is at no node of the chain.
abbrev pub Over : World → Type 0
Over w =
    (stops w ≡ true)
    ⊎ ((w.ctx.message ≡ none)
        ⊎ ((w.ctx.current_handler_node ≡ nil) × (w.ctx.current_handler ≡ none)))

abbrev pub OverAfter : Outcome → Type 0
OverAfter (returned w) = Over w
OverAfter _ = Unit

OverAfter-if :
    (b : Bool) (x y : Outcome) → OverAfter x → OverAfter y → OverAfter (if b then x else y)
OverAfter-if true x y hx hy = hx
OverAfter-if false x y hx hy = hy

OverAfter-unless_stopped :
    (b : Bool) (w : World) (o : Outcome)
    → stops w ≡ b
    → OverAfter o
    → OverAfter (if b then returned w else o)
OverAfter-unless_stopped true w o stop h = inl stop
OverAfter-unless_stopped false w o go h = h

OverAfter-reset : (o : Outcome) → OverAfter (o >>= λ w. returned (reset w))
OverAfter-reset (returned w) = inr (inr (refl, refl))
OverAfter-reset (panicked _ _ _) = tt
OverAfter-reset (blocked _) = tt
OverAfter-reset out_of_fuel = tt

OverAfter-deferred : (o : Outcome) → OverAfter o → OverAfter (deferred try_update_parent o)
unfolding try_update_parent
OverAfter-deferred (returned w) h = h
OverAfter-deferred (panicked _ _ _) h = tt
OverAfter-deferred (blocked _) h = tt
OverAfter-deferred out_of_fuel h = tt

OverAfter-at_end :
    (m : InboundMessage) (current : Option Handler) (w : World)
    → w.ctx.current_handler_node ≡ nil
    → w.ctx.current_handler ≡ current
    → OverAfter (at_end m current w)
OverAfter-at_end m (some h) w at here = tt
OverAfter-at_end m none w at here =
    elim (Bool-cases (m.has_set_id && not (is_some w.ctx.receiver_chan))) [
      | inl own ↦ rw own (inr (inr (at, here)))
      | inr other ↦ rw other (inr (inr (at, here)))
    ]

OverAfter-deliver_to :
    (ch : ℕ) (chan : Channel) (m : InboundMessage) (w : World) → OverAfter (deliver_to ch chan m w)
OverAfter-deliver_to ch chan m w = OverAfter-if chan.closed _ _ tt (
    OverAfter-if (not (is_some chan.buffer)) _ _ (inr (inl refl))
      (OverAfter-if w.socket.cancelled _ _ (inr (inl refl)) tt))

module _ (env : Environment) (again : World → Outcome) where
  OverAfter-go_on : (b : BindType) (o : Outcome) → OverAfter (o >>= go_on env again b)
  OverAfter-go_on b (returned w) = OverAfter-reset _
  OverAfter-go_on b (panicked _ _ _) = tt
  OverAfter-go_on b (blocked _) = tt
  OverAfter-go_on b out_of_fuel = tt

  OverAfter-run_body :
      (b : BindType) (body : Option (World → Outcome)) (w : World)
      → OverAfter (run_body env again b body w)
  OverAfter-run_body b none w = tt
  OverAfter-run_body b (some body) w = OverAfter-go_on b (exec_with_ctx_recovery (body w))

  OverAfter-at_handler :
      (m : InboundMessage) (n : Node) (i : ℕ) (h : Handler) (w : World) (ch : Option ℕ)
      → OverAfter (at_handler env again m n i h w ch)
  unfolding run_handler
  OverAfter-at_handler m n i h w (some ch) =
      let w' = on_socket (Ops.remove_receiver m.id) w in
      OverAfter-deliver_to ch (w'.socket.channels ch) m w'
  OverAfter-at_handler m n i h w none = OverAfter-run_body _ (body_of env again _ h) _

  OverAfter-after_walk :
      (m : InboundMessage) (w : World) (k : Walk) → OverAfter (after_walk env again m w k)
  OverAfter-after_walk m w (ended matches i current params) =
      OverAfter-at_end m current (place nil matches i current params w) refl refl
  OverAfter-after_walk m w (found n i h current params) = OverAfter-at_handler m n i h _ _
  OverAfter-after_walk m w (walk_panics _) = tt

  OverAfter-walk_from : (m : InboundMessage) (w : World) → OverAfter (walk_from env again m w)
  OverAfter-walk_from m w = OverAfter-after_walk m w (walk env.engine m.path _ _ _ _ _)

  OverAfter-recheck :
      (m : InboundMessage) (w : World) (x : Matching) → OverAfter (recheck env again m w x)
  OverAfter-recheck m w no_match = OverAfter-walk_from _ _
  OverAfter-recheck m w panics = tt
  OverAfter-recheck m w (matched params) = OverAfter-walk_from _ _

  OverAfter-with_message :
      (w : World) (m : Option InboundMessage) → OverAfter (Next.with_message env again w m)
  OverAfter-with_message w none = tt
  OverAfter-with_message w (some m) =
      OverAfter-if m.has_set_path _ _
        (OverAfter-if w.ctx.current_handler_node_matches _ _ (OverAfter-recheck m w _)
          (OverAfter-walk_from _ _))
        (OverAfter-walk_from m w)

  OverAfter-next_step : (w : World) → OverAfter (next_step env again w)
  unfolding next_step
  OverAfter-next_step w =
      OverAfter-deferred _
        (OverAfter-unless_stopped (stops w) w _ refl (OverAfter-with_message w w.ctx.message))

pub OverAfter-next_fuel :
    (env : Environment) (fuel : ℕ) (w : World) → OverAfter (next_fuel env fuel w)
unfolding next_fuel
OverAfter-next_fuel env zero w = tt
OverAfter-next_fuel env (suc f) w = OverAfter-next_step env (next_fuel env f) w
