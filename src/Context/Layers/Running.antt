-- ===== src/Context/Layers/Running.antt =====
-- context_next.go: layers run one inside the other.
use velaros.Base.{
  inl, inr, not, ◌&&◌, Bool-cases, ℕ, zero, suc, ◌<◌, ◌≡◌, refl, ap, ◌∙◌, false, none, List, [],
  ◌∷◌, arith, length,
}
use velaros.Pattern.Defs.{Engine}
use velaros.Base.Maps.{delete-missing}
use velaros.Socket.Defs.{InboundMessage}
use velaros.Socket.Ops
use velaros.Pattern.Matching.Agreement.{Documented}
use velaros.Context.Defs.{
  Environment, effect, Script, ret, call, nil, normal_bind_type, World, Outcome, returned, panicked,
  blocked, out_of_fuel, ◌>>=◌,
}
use velaros.Context.Ops.{perform}
use velaros.Context.Sub.{try_update_parent}
use velaros.Context.Chain.{Walk, ended, found, walk_panics, walk}
use velaros.Context.Order.{Candidate, IsFirst}
use velaros.Context.Next.{
  exec_with_ctx_recovery, deferred, beyond_end, place, is_some, run_script, go_on, after_walk,
  stops, next_fuel,
}
use velaros.Context.Layers.{
  Layer, around, leaf, failing, script_of, effects_of, Layered, Ready, Ends, enter, enter-IsFirst,
  next_step-walk, after_walk-func, Unclaimed,
}

-- A context that differs in its place in the chain only.
abbrev Alike : World → World → Type 0
Alike w v =
    (v.effects ≡ w.effects)
    × (v.socket ≡ w.socket)
    × (v.ctx.message ≡ w.ctx.message)
    × (v.ctx.receiver_chan ≡ w.ctx.receiver_chan)

Ends-Alike : (ls : List Layer) (w v : World) (o : Outcome) → Alike w v → Ends ls v o → Ends ls w o
Ends-Alike ls w v (returned x) (es, s, m, ch) (effects, error, socket, message, channel) =
    (effects ∙ ap (effects_of ls) es, error, socket ∙ s, message ∙ m, channel ∙ ch)
Ends-Alike ls w v (panicked _ _ x) same h = absurd h
Ends-Alike ls w v (blocked x) same h = absurd h
Ends-Alike ls w v out_of_fuel same h = absurd h

module _ (env : Environment) (again : World → Outcome) where
  -- What is before a context once a candidate runs.
  enter-Ready :
      (cs : List Candidate) (c : Candidate) (m : InboundMessage) (w : World)
      → Documented env.engine
      → Ready env.engine (c ∷ cs) m w
      → Ready env.engine cs m (enter c w)
  enter-Ready cs c m w safe r = record {
    message_is = r.message_is;
    unclaimed = r.unclaimed;
    no_path = r.no_path;
    no_error = r.no_error;
    is_open = r.is_open;
    at_first =
        enter-IsFirst env.engine m.path cs c (walk env.engine m.path _ _ _ _ _) safe r.at_first;
  }

  finish : World → Script → Outcome
  finish w s =
      exec_with_ctx_recovery (run_script env again s w) >>= go_on env again normal_bind_type

  around-Ends :
      (before after : ℕ) (ls : List Layer) (w : World) (o : Outcome)
      → Ends ls (record w { effects = before ∷ w.effects }) o
      → Ends (around before after ∷ ls) w (
          exec_with_ctx_recovery (o >>= run_script env again (call (effect after) (λ _. ret)))
          >>= go_on env again normal_bind_type)
  unfolding run_script perform
  around-Ends before after ls w (returned v) (effects, error, socket, message, channel) =
      (ap (◌∷◌ after) effects, error, socket, message, channel)
  around-Ends before after ls w (panicked _ _ v) h = absurd h
  around-Ends before after ls w (blocked v) h = absurd h
  around-Ends before after ls w out_of_fuel h = absurd h

  layer-Ends :
      (l : Layer) (ls : List Layer) (cs : List Candidate) (m : InboundMessage) (w : World)
      → ((w' : World) → Ready env.engine cs m w' → Ends ls w' (again w'))
      → Ready env.engine cs m w
      → Ends (l ∷ ls) w (finish w (script_of l))
  unfolding finish run_script perform
  layer-Ends (around before after) ls cs m w ih r =
      let w' = record w { effects = before ∷ w.effects } in
      around-Ends before after ls w (again w') (
        ih w' (record {
          message_is = r.message_is;
          unclaimed = r.unclaimed;
          no_path = r.no_path;
          no_error = r.no_error;
          is_open = r.is_open;
          at_first = r.at_first;
        }))
  layer-Ends (leaf n) ls cs m w ih r = (refl, r.no_error, refl, refl, refl)
  layer-Ends (failing n e trace) ls cs m w ih r = (refl, refl, refl, refl, refl)

Ends-deferred :
    (ls : List Layer) (w : World) (o : Outcome)
    → Ends ls w o
    → Ends ls w (deferred try_update_parent o)
unfolding try_update_parent
Ends-deferred ls w (returned v) h = h
Ends-deferred ls w (panicked _ _ v) h = absurd h
Ends-deferred ls w (blocked v) h = absurd h
Ends-deferred ls w out_of_fuel h = absurd h

-- At the end of the chain a receiver that is not there is given up.
beyond_end-Ends :
    (m : InboundMessage) (w : World)
    → Unclaimed m w.socket
    → w.ctx.err ≡ none
    → Ends [] w (returned (beyond_end m w))
unfolding Ops.remove_receiver
beyond_end-Ends m w (inl no_id) no_error = rw no_id (refl, no_error, refl, refl, refl)
beyond_end-Ends m w (inr nobody) no_error =
    elim (Bool-cases (m.has_set_id && not (is_some w.ctx.receiver_chan))) [
      | inl gives_up ↦ rw gives_up (
        refl,
        no_error,
        ap (λ r. record (w.socket) { receivers = r }) (delete-missing m.id _ nobody),
        refl,
        refl,
      )
      | inr keeps ↦ rw keeps (refl, no_error, refl, refl, refl)
    ]

after_walk_end :
    (env : Environment) (again : World → Outcome) (m : InboundMessage) (w : World) (k : Walk)
    → Unclaimed m w.socket
    → w.ctx.err ≡ none
    → IsFirst env.engine m.path [] k
    → Ends [] w (after_walk env again m w k)
after_walk_end env again m w (ended matches i current params) free no_error first =
    rw first (beyond_end-Ends m (place nil matches i none params w) free no_error)
after_walk_end env again m w (found _ _ _ _ _) free no_error first = absurd first
after_walk_end env again m w (walk_panics _) free no_error first = absurd first

Ready-goes :
    {re : Engine} {cs : List Candidate} {m : InboundMessage} {w : World}
    → Ready re cs m w
    → stops w ≡ false
Ready-goes r = rw (r.no_error, r.is_open) (ground arith)

-- A chain of layers runs from the first in, down to the first handler that does not call `Next`,
-- and out again: what a layer does after `Next` runs although an inner handler panicked, the
-- handlers behind the first that does not call `Next` do not run, and the error that is left is
-- that of the handler that panicked, if one did; the message, the context's channel and the socket
-- are as before. One unit of fuel for each layer is enough. The
-- context has its message, which has no new path from middleware and either no id from middleware or
-- one that no receiver is registered for, and no error; the socket is open; and the engine behaves
-- as package regexp documents.
pub next_fuel-Layered :
    (env : Environment) (ls : List Layer) (cs : List Candidate) (m : InboundMessage) (w : World)
    (fuel : ℕ)
    → Documented env.engine
    → Layered cs ls
    → Ready env.engine cs m w
    → length ls < fuel
    → Ends ls w (next_fuel env fuel w)
unfolding next_fuel finish
next_fuel-Layered env ls cs m w zero safe layered r lt = absurd (omega arith)
next_fuel-Layered env [] [] m w (suc f) safe layered r lt =
    rw (next_step-walk env (next_fuel env f) m w (Ready-goes r) r.message_is r.no_path) (
      Ends-deferred [] w _ (
        after_walk_end env (next_fuel env f) m w (walk env.engine m.path _ _ _ _ _) r.unclaimed
          r.no_error r.at_first))
next_fuel-Layered env [] (c ∷ cs) m w (suc f) safe layered r lt = absurd layered
next_fuel-Layered env (l ∷ ls) [] m w (suc f) safe layered r lt = absurd layered
next_fuel-Layered env (l ∷ ls) (c ∷ cs) m w (suc f) safe (normal, (p, same), layered) r lt =
    let again = next_fuel env f in
    rw
      (
        next_step-walk env again m w (Ready-goes r) r.message_is r.no_path,
        after_walk-func env again normal_bind_type m w c cs (walk env.engine m.path _ _ _ _ _) p
            (script_of l) r.unclaimed r.at_first normal same,
      )
      (Ends-deferred (l ∷ ls) w _ (
        Ends-Alike (l ∷ ls) w (enter c w) _ (refl, refl, refl, refl)
          (layer-Ends env again l ls cs m (enter c w)
            (λ w' r'. next_fuel-Layered env ls cs m w' f safe layered r' (omega arith))
            (enter-Ready env again cs c m w safe r))))

pub length-Layered : (cs : List Candidate) (ls : List Layer) → Layered cs ls → length ls ≡ length cs
length-Layered [] [] h = refl
length-Layered [] (l ∷ ls) h = absurd h
length-Layered (c ∷ cs) [] h = absurd h
length-Layered (c ∷ cs) (l ∷ ls) (normal, same, h) = ap suc (length-Layered cs ls h)
