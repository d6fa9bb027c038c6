-- ===== src/Context/Closing.antt =====
-- The handlers of `UseClose` all run.
use velaros.Base.{
  ℕ, zero, suc, ◌<◌, ◌≡◌, refl, false, Option, some, List, [], ◌∷◌, Text, arith, length, inl,
}
use velaros.Pattern.Defs.{Engine}
use velaros.Socket.Defs.{InboundMessage}
use velaros.Pattern.Matching.Agreement.{Documented}
use velaros.Context.Defs.{
  Environment, effect, Script, ret, panic, call, func, close_bind_type, World, Outcome, returned,
  panicked, blocked, out_of_fuel, ◌>>=◌,
}
use velaros.Context.Ops.{perform}
use velaros.Context.Calls.{on_ctx}
use velaros.Context.Sub.{try_update_parent}
use velaros.Context.Chain.{Walk, ended, found, walk_panics, walk}
use velaros.Context.Order.{Candidate, IsFirst}
use velaros.Context.Next.{
  bind_type_of, exec_with_ctx_recovery, deferred, run_script, go_on, after_walk, stops, next_fuel,
  reset,
}
use velaros.Context.Layers.{next_step-walk, enter, enter-IsFirst, after_walk-func}

-- A handler that does its work and returns, or panics.
pub data Cleanup : Type 0 where
  quiet : ℕ → Cleanup
  failing : ℕ → Text → Text → Cleanup

abbrev pub script_of : Cleanup → Script
script_of (quiet n) = call (effect n) (λ _. ret)
script_of (failing n e trace) = call (effect n) (λ _. panic e trace)

abbrev pub all_effects : List Cleanup → List ℕ → List ℕ
all_effects [] es = es
all_effects (quiet n ∷ ls) es = all_effects ls (n ∷ es)
all_effects (failing n e trace ∷ ls) es = all_effects ls (n ∷ es)

abbrev pub last_error : List Cleanup → Option Text → Option Text
last_error [] e = e
last_error (quiet n ∷ ls) e = last_error ls e
last_error (failing n e trace ∷ ls) _ = last_error ls (some e)

-- The candidates are such handlers, on nodes of `UseClose`.
abbrev pub Closes : List Candidate → List Cleanup → Type 0
Closes [] [] = Unit
Closes (c ∷ cs) (l ∷ ls) =
    (bind_type_of c.at ≡ close_bind_type)
    × ((p : ℕ) × (c.handler ≡ func p (script_of l)))
    × Closes cs ls
Closes _ _ = ⊥

-- A context with these candidates before it; it may hold an error, and the socket may be closed.
pub record Closing (re : Engine) (cs : List Candidate) (m : InboundMessage) (w : World)
    : Type 0 where
  pub message_is : w.ctx.message ≡ some m
  pub no_id : m.has_set_id ≡ false
  pub no_path : m.has_set_path ≡ false
  pub on_close : bind_type_of w.ctx.current_handler_node ≡ close_bind_type
  pub at_first : IsFirst re m.path cs (
      walk re m.path w.ctx.current_handler_node w.ctx.current_handler_node_matches
        w.ctx.current_handler_index w.ctx.current_handler w.ctx.params)

abbrev pub EndsAll : List Cleanup → World → Outcome → Type 0
EndsAll ls w (returned w') =
    (w'.effects ≡ all_effects ls w.effects)
    × (w'.ctx.err ≡ last_error ls w.ctx.err)
    × (w'.socket ≡ w.socket)
EndsAll ls w _ = ⊥

EndsAll-deferred :
    (ls : List Cleanup) (w : World) (o : Outcome)
    → EndsAll ls w o
    → EndsAll ls w (deferred try_update_parent o)
unfolding try_update_parent
EndsAll-deferred ls w (returned v) h = h
EndsAll-deferred ls w (panicked _ _ v) h = absurd h
EndsAll-deferred ls w (blocked v) h = absurd h
EndsAll-deferred ls w out_of_fuel h = absurd h

EndsAll-reset :
    (ls : List Cleanup) (w : World) (o : Outcome)
    → EndsAll ls w o
    → EndsAll ls w (o >>= λ w'. returned (reset w'))
EndsAll-reset ls w (returned v) h = h
EndsAll-reset ls w (panicked _ _ v) h = absurd h
EndsAll-reset ls w (blocked v) h = absurd h
EndsAll-reset ls w out_of_fuel h = absurd h

module _ (env : Environment) (again : World → Outcome) where
  enter-Closing :
      (cs : List Candidate) (c : Candidate) (m : InboundMessage) (w : World)
      → Documented env.engine
      → bind_type_of c.at ≡ close_bind_type
      → Closing env.engine (c ∷ cs) m w
      → Closing env.engine cs m (enter c w)
  enter-Closing cs c m w safe closes r = record {
    message_is = r.message_is;
    no_id = r.no_id;
    no_path = r.no_path;
    on_close = closes;
    at_first =
        enter-IsFirst env.engine m.path cs c (walk env.engine m.path _ _ _ _ _) safe r.at_first;
  }

  cleanup-EndsAll :
      (l : Cleanup) (ls : List Cleanup) (cs : List Candidate) (c : Candidate) (m : InboundMessage)
      (w : World)
      → ((w' : World) → Closing env.engine cs m w' → EndsAll ls w' (again w'))
      → Closing env.engine cs m (enter c w)
      → EndsAll (l ∷ ls) w (
          exec_with_ctx_recovery (run_script env again (script_of l) (enter c w))
          >>= go_on env again close_bind_type)
  unfolding run_script perform
  cleanup-EndsAll (quiet n) ls cs c m w ih r =
      let v = record (enter c w) { effects = n ∷ w.effects } in
      EndsAll-reset (quiet n ∷ ls) w (again v) (
        ih v (record {
          message_is = r.message_is;
          no_id = r.no_id;
          no_path = r.no_path;
          on_close = r.on_close;
          at_first = r.at_first;
        }))
  cleanup-EndsAll (failing n e trace) ls cs c m w ih r =
      let v =
        on_ctx (λ x. record x { err = some e; error_stack = trace })
          (record (enter c w) { effects = n ∷ w.effects }) in
      EndsAll-reset (failing n e trace ∷ ls) w (again v) (
        ih v (record {
          message_is = r.message_is;
          no_id = r.no_id;
          no_path = r.no_path;
          on_close = r.on_close;
          at_first = r.at_first;
        }))

Closing-goes :
    {re : Engine} {cs : List Candidate} {m : InboundMessage} {w : World}
    → Closing re cs m w
    → stops w ≡ false
Closing-goes r = rw r.on_close

after_walk_end :
    (env : Environment) (again : World → Outcome) (m : InboundMessage) (w : World) (k : Walk)
    → m.has_set_id ≡ false
    → IsFirst env.engine m.path [] k
    → EndsAll [] w (after_walk env again m w k)
after_walk_end env again m w (ended matches i current params) no_id first =
    rw (first, no_id) (refl, refl, refl)
after_walk_end env again m w (found _ _ _ _ _) no_id first = absurd first
after_walk_end env again m w (walk_panics _) no_id first = absurd first

-- The handlers of `UseClose` all run, in the order of registration: whether or not the context
-- holds an error already, the socket is closed, or handlers before them panicked. The error that
-- is left is that of the last one that panicked. One unit of fuel for each handler is enough. The
-- handlers are functions that do something and then return or panic; the context has its message,
-- which has no id and no new path from middleware; and the engine behaves as package regexp
-- documents.
pub next_fuel-Closes :
    (env : Environment) (ls : List Cleanup) (cs : List Candidate) (m : InboundMessage) (w : World)
    (fuel : ℕ)
    → Documented env.engine
    → Closes cs ls
    → Closing env.engine cs m w
    → length ls < fuel
    → EndsAll ls w (next_fuel env fuel w)
unfolding next_fuel
next_fuel-Closes env ls cs m w zero safe closes r lt = absurd (omega arith)
next_fuel-Closes env [] [] m w (suc f) safe closes r lt =
    rw (next_step-walk env (next_fuel env f) m w (Closing-goes r) r.message_is r.no_path) (
      EndsAll-deferred [] w _ (
        after_walk_end env (next_fuel env f) m w (walk env.engine m.path _ _ _ _ _) r.no_id
          r.at_first))
next_fuel-Closes env [] (c ∷ cs) m w (suc f) safe closes r lt = absurd closes
next_fuel-Closes env (l ∷ ls) [] m w (suc f) safe closes r lt = absurd closes
next_fuel-Closes env (l ∷ ls) (c ∷ cs) m w (suc f) safe (closing, (p, same), closes) r lt =
    let again = next_fuel env f in
    rw
      (
        next_step-walk env again m w (Closing-goes r) r.message_is r.no_path,
        after_walk-func env again close_bind_type m w c cs (walk env.engine m.path _ _ _ _ _) p
            (script_of l) (inl r.no_id) r.at_first closing same,
      )
      (EndsAll-deferred (l ∷ ls) w _ (
        cleanup-EndsAll env again l ls cs c m w
          (λ w' r'. next_fuel-Closes env ls cs m w' f safe closes r' (omega arith))
          (enter-Closing env again cs c m w safe closing r)))
