-- ===== src/Context/Again/Unmoved.antt =====
-- context_next.go: what a further call of `Next` does.
use velaros.Base.{
  ℕ, suc, ◌≡◌, inl, inr, refl, sym, ◌&&◌, not, Bool, Bool-cases, true, false, [], Option, none,
  some, arith, if◌then◌else◌,
}
use velaros.Pattern.Matching.{MessageParams}
use velaros.Socket.Defs.{InboundMessage}
use velaros.Context.Defs.{
  Environment, nil, World, Outcome, returned, panicked, blocked, out_of_fuel,
}
use velaros.Context.Calls.{nil_dereference, on_ctx}
use velaros.Socket.Ops
use mathlib.Core.Path.{subst}
use velaros.Context.Sub.{try_update_parent}
use velaros.Context.Chain.{walk, try_match}
use velaros.Context.Next.{
  is_some, exec_with_ctx_recovery, deferred, deliver_to, pattern_of, path_seen, reset, beyond_end,
  at_end, stops, place, go_on, body_of, run_body, run_handler, at_handler, after_walk, walk_from,
  with_path_seen, recheck, with_message, next_step, next_fuel,
}
use velaros.Context.Next
use velaros.Context.Again.{Over, OverAfter-next_fuel}

abbrev pub Unmoved : World → Outcome → Type 0
Unmoved w (returned v) =
    (v.effects ≡ w.effects) × (v.ctx.err ≡ w.ctx.err) × (v.socket.written ≡ w.socket.written)
Unmoved w _ = ⊥

-- What a further call of `Next` does: where nothing stops it and the message is gone, it panics.
abbrev pub NoMore : Bool → Option InboundMessage → World → Outcome → Type 0
NoMore false none w o = o ≡ panicked nil_dereference [] (try_update_parent w)
NoMore _ _ w o = Unmoved w o

Unmoved-if :
    (b : Bool) (w : World) (x y : Outcome)
    → Unmoved w x
    → Unmoved w y
    → Unmoved w (if b then x else y)
Unmoved-if true w x y hx hy = hx
Unmoved-if false w x y hx hy = hy

Unmoved-deferred :
    (w : World) (o : Outcome) → Unmoved w o → Unmoved w (deferred try_update_parent o)
unfolding try_update_parent
Unmoved-deferred w (returned v) h = h
Unmoved-deferred w (panicked _ _ _) h = absurd h
Unmoved-deferred w (blocked _) h = absurd h
Unmoved-deferred w out_of_fuel h = absurd h

Unmoved-at_end :
    (m : InboundMessage) (w : World) (matches : Bool) (i : ℕ) (params : MessageParams)
    → Unmoved w (at_end m none (place nil matches i none params w))
unfolding Ops.remove_receiver
Unmoved-at_end m w matches i params =
    elim (Bool-cases (m.has_set_id && not (is_some w.ctx.receiver_chan))) [
      | inl own ↦ rw own (refl, refl, refl)
      | inr other ↦ rw other (refl, refl, refl)
    ]

module _ (env : Environment) (again : World → Outcome) where
  Unmoved-walk_from :
      (m : InboundMessage) (w : World)
      → w.ctx.current_handler_node ≡ nil
      → w.ctx.current_handler ≡ none
      → Unmoved w (walk_from env again m w)
  unfolding walk
  Unmoved-walk_from m w at here = rw (at, here) (Unmoved-at_end m w _ _ _)

  Unmoved-with_message :
      (w : World) (m : InboundMessage)
      → w.ctx.current_handler_node ≡ nil
      → w.ctx.current_handler ≡ none
      → Unmoved w (Next.with_message env again w (some m))
  unfolding try_match
  Unmoved-with_message w m at here =
      let fresh =
        Unmoved-walk_from (path_seen m) (on_ctx (λ c. record c { message = some (path_seen m) }) w)
          at here in
      Unmoved-if m.has_set_path w _ _
        (Unmoved-if w.ctx.current_handler_node_matches w _ _
          (subst
            (λ n.
              Unmoved w
                (recheck env again m w (try_match env.engine m.path (pattern_of n) w.ctx.params)))
            (sym at) fresh)
          fresh)
        (Unmoved-walk_from m w at here)

  NoMore-next_step :
      (w : World) (stop : Bool) (m : Option InboundMessage)
      → stops w ≡ stop
      → w.ctx.message ≡ m
      → Over w
      → NoMore stop m w (next_step env again w)
  unfolding next_step
  NoMore-next_step w true m stop here over =
      rw stop (Unmoved-deferred w (returned w) (refl, refl, refl))
  NoMore-next_step w false none go here over = rw (go, here) refl
  NoMore-next_step w false (some m) go here (inl stop) = absurd (ground arith)
  NoMore-next_step w false (some m) go here (inr (inl gone)) = absurd (ground arith)
  NoMore-next_step w false (some m) go here (inr (inr (at, idle))) = rw go (
      subst (λ o. Unmoved w (deferred try_update_parent (Next.with_message env again w o)))
        (sym here) (Unmoved-deferred w _ (Unmoved-with_message w m at idle)))

-- Once `Next` has returned, a further call of `Next` on the context runs no handler: it returns, with
-- no effect, no write to the connection and the error that there was. But where the context's message
-- is gone, as it is once it was handed to a receiver, and nothing stops `Next`, since there is no
-- error and the socket is open, or since the node at hand is one of a close chain, it panics with a
-- nil dereference.
pub next_again :
    (env : Environment) (fuel fuel' : ℕ) (w w' : World)
    → next_fuel env fuel w ≡ returned w'
    → NoMore (stops w') w'.ctx.message w' (next_fuel env (suc fuel') w')
unfolding next_fuel
next_again env fuel fuel' w w' returns =
    NoMore-next_step env (next_fuel env fuel') w' (stops w') w'.ctx.message refl refl
      (rw returns at (OverAfter-next_fuel env fuel w))
