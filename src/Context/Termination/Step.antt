-- ===== src/Context/Termination/Step.antt =====
-- One call of `Next` uses up a handler before it makes another call.
use velaros.Base.{
  ℕ, ◌+◌, ◌≤◌, ◌<◌, ◌≡◌, refl, ap, ◌∙◌, Bool, true, false, not, ◌&&◌, ◌||◌, Option, none, some,
  List, ◌∷◌, arith, if◌then◌else◌,
}
use velaros.Socket.Defs.{InboundMessage}
use velaros.Context.Defs.{
  Environment, Script, ret, panic, next, call, Handler, func, object, router, other, Node, BindType,
  normal_bind_type, open_bind_type, close_bind_type, World, Outcome, returned, Reply,
}
use velaros.Context.Ops.{perform}
use velaros.Context.Calls.{reply, panics, waits, Result}
use velaros.Context.Sub.{pop, push_sub, finalize, new_sub_context}
use velaros.Context.Next.{
  after_op, run_script, route_message, route_through, after_sub, body_of, reset, go_on, run_body,
  run_handler, exec_with_ctx_recovery, is_open, is_close,
}
use velaros.Context.Termination.Weight.{weight_of, weight, left_at, left, left_at-le}
use velaros.Context.Termination.Ops.{
  lefts, ResultStays, perform-ResultStays, Settles, Settles-bind, Settles-le, Settles-recovery,
  pop-Stays, Settles-leave_on_panic,
}

finalize-parents : (w : World) → (finalize w).parents ≡ w.parents
unfolding finalize
finalize-parents w = refl

pub Settles-if :
    (l : ℕ) (ps : List ℕ) (b : Bool) (o o' : Outcome)
    → Settles l ps o
    → Settles l ps o'
    → Settles l ps (if b then o else o')
Settles-if l ps true o o' h h' = h
Settles-if l ps false o o' h h' = h'

-- `again` settles wherever fewer than `f` handlers are left.
abbrev pub SettlesBelow : ℕ → (World → Outcome) → Type 0
SettlesBelow f again =
    (w : World) → left w.ctx < f → Settles (left w.ctx) (lefts w.parents) (again w)

module _ (env : Environment) (again : World → Outcome) (f : ℕ) (ih : SettlesBelow f again) where
  again-Settles :
      (l : ℕ) (ps : List ℕ) (w : World)
      → l < f
      → left w.ctx ≤ l
      → lefts w.parents ≡ ps
      → Settles l ps (again w)
  again-Settles l ps w lt le eq =
      Settles-le (left w.ctx) l (lefts w.parents) ps (again w) le eq (ih w (omega arith))

  module _ (l : ℕ) (ps : List ℕ) (lt : l < f) where
    after_op-Settles :
        (w : World) (go : Reply → World → Outcome) (r : Result)
        → ResultStays w r
        → left w.ctx ≤ l
        → lefts w.parents ≡ ps
        → ((x : Reply) (w' : World)
            → left w'.ctx ≤ l
            → lefts w'.parents ≡ ps
            → Settles l ps (go x w'))
        → Settles l ps (after_op go r)
    after_op-Settles w go (reply x w') (same, above) le eq h = h x w' (omega arith) (above ∙ eq)
    after_op-Settles w go (panics e w') (same, above) le eq h = (omega arith, above ∙ eq)
    after_op-Settles w go (waits w') s le eq h = tt

    run_script-Settles :
        (s : Script) (w : World)
        → left w.ctx ≤ l
        → lefts w.parents ≡ ps
        → Settles l ps (run_script env again s w)
    unfolding run_script
    run_script-Settles ret w le eq = (le, eq)
    run_script-Settles (panic e trace) w le eq = (le, eq)
    run_script-Settles (next k) w le eq =
        Settles-bind l ps (again w) (run_script env again k) (again-Settles l ps w lt le eq)
          (λ w' le' eq'. run_script-Settles k w' le' eq')
    run_script-Settles (call op k) w le eq =
        after_op-Settles w (λ r w'. run_script env again (k r) w') (perform env op w)
          (perform-ResultStays env op w) le eq (λ r w' le' eq'. run_script-Settles (k r) w' le' eq')

    after_sub-Settles :
        (w : World) → lefts w.parents ≡ l ∷ ps → Settles l ps (after_sub env again w)
    after_sub-Settles w eq =
        let (here, above) = pop-Stays (finalize w) (ap lefts (finalize-parents w) ∙ eq) in
        Settles-if l ps w.ctx.next_beyond_end (again (pop (finalize w)))
          (returned (pop (finalize w)))
          (again-Settles l ps (pop (finalize w)) lt (omega arith) above) (omega arith, above)

    route_message-Settles :
        (n : Node) (w : World) (m : Option InboundMessage)
        → weight n < f
        → left w.ctx ≡ l
        → lefts w.parents ≡ ps
        → Settles l ps (route_message env again n w m)
    unfolding new_sub_context
    route_message-Settles n w none small here above = (omega arith, above)
    route_message-Settles n w (some m) small here above =
        Settles-leave_on_panic (left_at n false 0) l ps (again (push_sub w m n))
          (after_sub env again)
          (again-Settles (left_at n false 0) (l ∷ ps) (push_sub w m n)
            (omega (arith, left_at-le n false 0)) (omega arith) (rw (here, above)))
          (λ w' eq. after_sub-Settles w' eq)

    go_on-Settles :
        (b : BindType) (w : World)
        → left w.ctx ≤ l
        → lefts w.parents ≡ ps
        → Settles l ps (go_on env again b w)
    unfolding left_at
    go_on-Settles b w le eq =
        Settles-bind l ps
          (if (is_open b && not w.socket.closed) || is_close b then again w else returned w)
          (λ w'. returned (reset w'))
          (Settles-if l ps ((is_open b && not w.socket.closed) || is_close b) (again w) (returned w)
            (again-Settles l ps w lt le eq) (le, eq))
          (λ w' le' eq'. (omega arith, eq'))

  abbrev BodySettles : World → Option (World → Outcome) → Type 0
  BodySettles w none = Unit
  BodySettles w (some g) = Settles (left w.ctx) (lefts w.parents) (g w)

  script-Settles :
      (s : Script) (w : World)
      → left w.ctx < f
      → Settles (left w.ctx) (lefts w.parents) (run_script env again s w)
  script-Settles s w lt =
      run_script-Settles (left w.ctx) (lefts w.parents) lt s w (omega arith) refl

  route-Settles :
      (n : Node) (w : World)
      → weight n < f
      → left w.ctx < f
      → Settles (left w.ctx) (lefts w.parents) (route_through env again n w)
  unfolding route_through
  route-Settles n w small lt =
      route_message-Settles (left w.ctx) (lefts w.parents) lt n w w.ctx.message small refl refl

  body_of-Settles :
      (b : BindType) (h : Handler) (w : World)
      → left w.ctx + weight_of h ≤ f
      → BodySettles w (body_of env again b h)
  unfolding weight_of
  body_of-Settles open_bind_type (func _ s) w le = script-Settles s w (omega arith)
  body_of-Settles close_bind_type (func _ s) w le = script-Settles s w (omega arith)
  body_of-Settles normal_bind_type (func _ s) w le = script-Settles s w (omega arith)
  body_of-Settles open_bind_type (object _ _ (some s) _) w le = script-Settles s w (omega arith)
  body_of-Settles open_bind_type (object _ _ none _) w le = tt
  body_of-Settles close_bind_type (object _ _ _ (some s)) w le = script-Settles s w (omega arith)
  body_of-Settles close_bind_type (object _ _ _ none) w le = tt
  body_of-Settles normal_bind_type (object _ (some s) _ _) w le = script-Settles s w (omega arith)
  body_of-Settles normal_bind_type (object _ none _ _) w le = tt
  body_of-Settles open_bind_type (router _ ms os cs _) w le =
      route-Settles os w (omega arith) (omega arith)
  body_of-Settles close_bind_type (router _ ms os cs _) w le =
      route-Settles cs w (omega arith) (omega arith)
  body_of-Settles normal_bind_type (router _ ms os cs _) w le =
      route-Settles ms w (omega arith) (omega arith)
  body_of-Settles open_bind_type (other _) w le = tt
  body_of-Settles close_bind_type (other _) w le = tt
  body_of-Settles normal_bind_type (other _) w le = tt

  run_body-Settles :
      (b : BindType) (body : Option (World → Outcome)) (w : World)
      → left w.ctx < f
      → BodySettles w body
      → Settles (left w.ctx) (lefts w.parents) (run_body env again b body w)
  run_body-Settles b none w lt h = (omega arith, refl)
  run_body-Settles b (some g) w lt h =
      Settles-bind (left w.ctx) (lefts w.parents) (exec_with_ctx_recovery (g w)) (go_on env again b)
        (Settles-recovery (left w.ctx) (lefts w.parents) (g w) h)
        (λ w' le eq. go_on-Settles (left w.ctx) (lefts w.parents) lt b w' le eq)

  weight_of_pos : (h : Handler) → 0 < weight_of h
  unfolding weight_of
  weight_of_pos (func _ _) = omega arith
  weight_of_pos (object _ _ _ _) = omega arith
  weight_of_pos (router _ _ _ _ _) = omega arith
  weight_of_pos (other _) = omega arith

  pub run_handler-Settles :
      (b : BindType) (h : Handler) (w : World)
      → left w.ctx + weight_of h ≤ f
      → Settles (left w.ctx) (lefts w.parents) (run_handler env again b h w)
  unfolding run_handler
  run_handler-Settles b h w le =
      run_body-Settles b (body_of env again b h) w (omega (arith, weight_of_pos h))
        (body_of-Settles b h w le)
