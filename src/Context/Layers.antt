-- ===== src/Context/Layers.antt =====
-- context_next.go: handlers as layers around the rest of the chain, and the step to the next one.
pub mod Running
use native.Mathlib.Numerals.{add-one}
use velaros.Base.{
  ℕ, zero, suc, ◌+◌, ◌<◌, ◌≡◌, refl, sym, ap, ◌∙◌, true, false, Option, none, some, List, [], ◌∷◌,
  Text, arith, length, ◌⊎◌, inl, inr,
}
use velaros.Pattern.Defs.{Engine}
use velaros.Base.Maps.{lookup}
use velaros.Socket.Defs.{InboundMessage, Socket}
use velaros.Socket.Ops
use velaros.Pattern.Matching.Agreement.{Documented}
use velaros.Context.Defs.{
  Environment, effect, Script, ret, panic, next, call, func, BindType, normal_bind_type, World,
  Outcome, returned, panicked, blocked, out_of_fuel, ◌>>=◌, Node,
}
use velaros.Context.Ops.{perform}
use velaros.Context.Calls.{on_ctx}
use velaros.Context.Sub.{try_update_parent}
use velaros.Context.Chain.{Walk, ended, found, walk_panics, walk}
use velaros.Context.Order.{Candidate, IsFirst, walk-IsFirst_matching}
use velaros.Context.Next.{
  bind_type_of, exec_with_ctx_recovery, deferred, run_script, go_on, run_handler, after_walk,
  walk_from, stops, next_step, next_fuel, waiting_receiver, place,
}

-- Handlers that work before and after a call of `Next`, that do not call it, and that panic.
pub data Layer : Type 0 where
  around : ℕ → ℕ → Layer
  leaf : ℕ → Layer
  failing : ℕ → Text → Text → Layer

abbrev pub script_of : Layer → Script
script_of (around before after) = call (effect before) (λ _. next (call (effect after) (λ _. ret)))
script_of (leaf n) = call (effect n) (λ _. ret)
script_of (failing n e trace) = call (effect n) (λ _. panic e trace)

-- The effects of a chain of layers, the latest first: from the outermost layer in, down to the
-- first that does not call `Next`, and then out again.
abbrev pub effects_of : List Layer → List ℕ → List ℕ
effects_of [] es = es
effects_of (around before after ∷ ls) es = after ∷ effects_of ls (before ∷ es)
effects_of (leaf n ∷ ls) es = n ∷ es
effects_of (failing n e trace ∷ ls) es = n ∷ es

abbrev pub error_of : List Layer → Option Text
error_of [] = none
error_of (around _ _ ∷ ls) = error_of ls
error_of (leaf _ ∷ ls) = none
error_of (failing _ e _ ∷ ls) = some e

-- The candidates are handlers of these layers, on message nodes.
abbrev pub Layered : List Candidate → List Layer → Type 0
Layered [] [] = Unit
Layered (c ∷ cs) (l ∷ ls) =
    (bind_type_of c.at ≡ normal_bind_type)
    × ((p : ℕ) × (c.handler ≡ func p (script_of l)))
    × Layered cs ls
Layered _ _ = ⊥

-- Middleware set no id of the message, or no receiver is registered for the id.
abbrev pub Unclaimed : InboundMessage → Socket → Type 0
Unclaimed m s = (m.has_set_id ≡ false) ⊎ (lookup m.id s.receivers ≡ none)

Unclaimed-waiting :
    (m : InboundMessage) (n : Node) (i : ℕ) (w : World)
    → Unclaimed m w.socket
    → waiting_receiver m n i w ≡ none
unfolding Ops.get_receiver_for_node
Unclaimed-waiting m n i w (inl no_id) = rw no_id refl
Unclaimed-waiting m n i w (inr nobody) = ground arith

-- A context whose message has no new path from middleware and no receiver that waits for it, without
-- an error, on an open socket, that has these candidates before it.
pub record Ready (re : Engine) (cs : List Candidate) (m : InboundMessage) (w : World) : Type 0 where
  pub message_is : w.ctx.message ≡ some m
  pub unclaimed : Unclaimed m w.socket
  pub no_path : m.has_set_path ≡ false
  pub no_error : w.ctx.err ≡ none
  pub is_open : w.socket.closed ≡ false
  pub at_first : IsFirst re m.path cs (
      walk re m.path w.ctx.current_handler_node w.ctx.current_handler_node_matches
        w.ctx.current_handler_index w.ctx.current_handler w.ctx.params)

-- The effects and the error of these layers, on the message, the channel and the socket of before.
abbrev pub Ends : List Layer → World → Outcome → Type 0
Ends ls w (returned w') =
    (w'.effects ≡ effects_of ls w.effects)
    × (w'.ctx.err ≡ error_of ls)
    × (w'.socket ≡ w.socket)
    × (w'.ctx.message ≡ w.ctx.message)
    × (w'.ctx.receiver_chan ≡ w.ctx.receiver_chan)
Ends ls w _ = ⊥

-- The context with the handler of a candidate at work.
abbrev pub enter : Candidate → World → World
enter c w =
    on_ctx
      (λ x. record x {
        current_handler_node = c.at;
        current_handler_node_matches = true;
        current_handler_index = c.index + 1;
        current_handler = some c.handler;
        params = c.params;
      })
      w

-- Once a candidate runs, the others are before the context.
pub enter-IsFirst :
    (re : Engine) (path : Text) (cs : List Candidate) (c : Candidate) (k : Walk)
    → Documented re
    → IsFirst re path (c ∷ cs) k
    → IsFirst re path cs (walk re path c.at true (c.index + 1) (some c.handler) c.params)
enter-IsFirst re path cs c (found n i h current params) safe (here, later, node) =
    rw (here, add-one i, ← later)
      (walk-IsFirst_matching re path n safe (suc i) (some h) params node)
enter-IsFirst re path cs c (ended _ _ _ _) safe first = absurd first
enter-IsFirst re path cs c (walk_panics _) safe first = absurd first

module _ (env : Environment) (again : World → Outcome) where
  pub next_step-walk :
      (m : InboundMessage) (w : World)
      → stops w ≡ false
      → w.ctx.message ≡ some m
      → m.has_set_path ≡ false
      → next_step env again w ≡ deferred try_update_parent (walk_from env again m w)
  unfolding next_step
  next_step-walk m w going here no_path = rw (going, here, no_path)

  -- The first candidate is a function: it is called, and what it panics with is caught.
  pub after_walk-func :
      (b : BindType) (m : InboundMessage) (w : World) (c : Candidate) (cs : List Candidate)
      (k : Walk) (p : ℕ) (s : Script)
      → Unclaimed m w.socket
      → IsFirst env.engine m.path (c ∷ cs) k
      → bind_type_of c.at ≡ b
      → c.handler ≡ func p s
      → after_walk env again m w k
        ≡ (exec_with_ctx_recovery (run_script env again s (enter c w)) >>= go_on env again b)
  unfolding run_handler
  after_walk-func b m w c cs (ended _ _ _ _) p s free first normal same = absurd first
  after_walk-func b m w c cs (found n i h current params) p s free (here, later, node) normal same =
      let normal' : bind_type_of n ≡ b =
        sym (ap (λ (x : Candidate). bind_type_of x.at) here) ∙ normal in
      let same' : h ≡ func p s = sym (ap (λ (x : Candidate). x.handler) here) ∙ same in
      rw (Unclaimed-waiting m n i (place n true i current params w) free, here, same', normal')
  after_walk-func b m w c cs (walk_panics _) p s free first normal same = absurd first
