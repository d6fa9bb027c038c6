-- ===== src/Connection/Mounted.antt =====
-- router.go, context.go, context_next.go: what becomes of the lock of a message's id where a mounted
-- router handles the message.
use velaros.Base.{
  ℕ, suc, ◌≡◌, refl, ap, ◌∙◌, true, false, Option, none, some, List, [], ◌∷◌, Text, arith, inl,
  text_eq_refl,
}
use mathlib.Core.Path.{subst}
use velaros.Base.Maps.{lookup, copy_into}
use velaros.Pattern.Matching.Agreement.{Documented}
use velaros.Socket.Defs.{InboundMessage}
use velaros.Socket.Ops
use velaros.Context.Defs.{
  Environment, Handler, set_message_id, Script, ret, call, func, Node, normal_bind_type, World,
  Outcome, returned, ◌>>=◌,
}
use velaros.Context.Ops.{perform}
use velaros.Context.Calls.{on_socket, node_address}
use velaros.Context.Sub.{new_sub_context, push_sub, pop, finalize, try_update_parent}
use velaros.Context.Chain.{Walk, ended, found, walk_panics, walk}
use velaros.Context.Order.{Candidate, candidates, IsFirst, walk-IsFirst}
use velaros.Context.Next.{
  bind_type_of, leave_on_panic, deferred, exec_with_ctx_recovery, run_script, go_on, after_walk,
  after_sub, route_message, route_through, stops, next_fuel, deliver, place, reset,
}
use velaros.Context.Layers.{next_step-walk, after_walk-func, enter}
use velaros.Connection.Message.{after_chain}
use velaros.Conversation.Owners.{held}
use velaros.Connection.Locks.{
  locked_world, locked_world-HasLock, after_chain-held, finalize-held, handed, deliver-handed,
}

-- The handler that the router has first for the message.
abbrev pub sets_id : Text → Script
sets_id id = call (set_message_id id) (λ _. ret)

module _ (env : Environment) (fuel : ℕ) (id : Text) (sub : Node) (m : InboundMessage) (w : World)
    (c : Candidate) (cs : List Candidate) (p : ℕ) where
  again : World → Outcome
  again = next_fuel env fuel

  -- A handler of a mounted router, the first that the message reaches there, that sets the id of the
  -- message does so on the sub-context's copy: the router's `Handle` returns, and the message of the
  -- connection's context does not know of the id, so that its lock stays taken after the message's
  -- goroutine has ended. The message has no id and no new path from middleware, and the context no error;
  -- the socket is open; the lock of the id is free before; and the engine behaves as package regexp
  -- documents.
  pub sub_set_message_id-held :
      Documented env.engine
      → w.ctx.message ≡ some m
      → m.has_set_id ≡ false
      → m.has_set_path ≡ false
      → w.ctx.err ≡ none
      → w.socket.closed ≡ false
      → lookup id w.socket.message_id_locks ≡ none
      → candidates env.engine m.path sub (copy_into w.ctx.params []) ≡ c ∷ cs
      → bind_type_of c.at ≡ normal_bind_type
      → c.handler ≡ func p (sets_id id)
      → (v : World) × (route_through env (next_fuel env (suc fuel)) sub w ≡ returned v)
        × (held id (after_chain v).socket ≡ true)
  unfolding route_through next_fuel new_sub_context again run_script perform try_update_parent
      finalize Ops.acquire_message_id_lock
  sub_set_message_id-held safe here no_id no_path no_error open_ free first normal same =
      let outer = next_fuel env (suc fuel) in
      let k = walk env.engine m.path sub false 0 none (copy_into w.ctx.params []) in
      let is_first : IsFirst env.engine m.path (c ∷ cs) k =
        rw first at (walk-IsFirst env.engine m.path sub safe (copy_into w.ctx.params [])) in
      let going : stops (push_sub w m sub) ≡ false = rw (no_error, open_) (ground arith) in
      let run : next_fuel env (suc fuel) (push_sub w m sub)
          ≡ deferred try_update_parent (
              exec_with_ctx_recovery
                (run_script env again (sets_id id) (enter c (push_sub w m sub)))
              >>= go_on env again normal_bind_type) =
        next_step-walk env again m (push_sub w m sub) going refl no_path
        ∙ ap (deferred try_update_parent) (
            after_walk-func env again normal_bind_type m (push_sub w m sub) c cs k p (sets_id id)
              (inl no_id) is_first normal same) in
      let inner = reset (locked_world id m (enter c (push_sub w m sub))) in
      let v = pop (finalize (try_update_parent inner)) in
      (
        v,
        ap (route_message env outer sub w) here
            ∙ ap (λ (o : Outcome). leave_on_panic o >>= after_sub env outer) run
            ∙ rw free refl,
        after_chain-held id v m here
            ∙ rw no_id (
                finalize-held id (try_update_parent inner)
                ∙ (locked_world-HasLock id m (enter c (push_sub w m sub))).taken),
      )

-- A candidate at which a receiver waits for the message is not run: the message goes there.
after_walk-deliver :
    (env : Environment) (again : World → Outcome) (m : InboundMessage) (w : World) (c : Candidate)
    (cs : List Candidate) (k : Walk) (ch : ℕ)
    → m.has_set_id ≡ true
    → w.ctx.receiver_chan ≡ none
    → IsFirst env.engine m.path (c ∷ cs) k
    → Ops.get_receiver_for_node m.id (node_address c.at) c.index w.socket ≡ some ch
    → (current : Option Handler) × (after_walk env again m w k
        ≡ deliver ch m
            (on_socket (Ops.remove_receiver m.id) (place c.at true c.index current c.params w)))
after_walk-deliver env again m w c cs (ended _ _ _ _) ch known alone first waits = absurd first
after_walk-deliver env again m w c cs (found n i h current params) ch known alone
      (here, later, some_node) waits =
    let waits' : Ops.get_receiver_for_node m.id (node_address n) i w.socket ≡ some ch =
      subst
        (λ (x : Candidate).
          Ops.get_receiver_for_node m.id (node_address x.at) x.index w.socket ≡ some ch)
        here waits in
    (current, rw (known, alone, waits', here) refl)
after_walk-deliver env again m w c cs (walk_panics _) ch known alone first waits = absurd first

module _ (env : Environment) (fuel : ℕ) (sub : Node) (m : InboundMessage) (w : World)
    (c : Candidate) (cs : List Candidate) (ch : ℕ) where
  -- A message whose receiver waits at the first handler that it reaches in a mounted router: the
  -- router's `Handle` returns, the receiver's channel has the message, and the end of the message's
  -- goroutine frees the lock of the id, since the connection's context has its own copy of the message;
  -- so the receiver goes on without the lock. The message has an id and no new path from middleware, and
  -- the context no error and no receiver of its own; the socket is open, the channel is open and empty;
  -- and the engine behaves as package regexp documents.
  pub sub_deliver-held :
      Documented env.engine
      → w.ctx.message ≡ some m
      → m.has_set_id ≡ true
      → m.has_set_path ≡ false
      → w.ctx.err ≡ none
      → w.ctx.receiver_chan ≡ none
      → w.socket.closed ≡ false
      → candidates env.engine m.path sub (copy_into w.ctx.params []) ≡ c ∷ cs
      → Ops.get_receiver_for_node m.id (node_address c.at) c.index w.socket ≡ some ch
      → (w.socket.channels ch).closed ≡ false
      → (w.socket.channels ch).buffer ≡ none
      → (v : World) × (route_through env (next_fuel env (suc fuel)) sub w ≡ returned v)
        × ((v.socket.channels ch).buffer ≡ some m)
        × (held m.id (after_chain v).socket ≡ false)
  unfolding route_through next_fuel new_sub_context try_update_parent finalize Ops.remove_receiver
  sub_deliver-held safe here known no_path no_error alone open_ first waits channel_open empty =
      let outer = next_fuel env (suc fuel) in
      let again = next_fuel env fuel in
      let k = walk env.engine m.path sub false 0 none (copy_into w.ctx.params []) in
      let is_first : IsFirst env.engine m.path (c ∷ cs) k =
        rw first at (walk-IsFirst env.engine m.path sub safe (copy_into w.ctx.params [])) in
      let going : stops (push_sub w m sub) ≡ false = rw (no_error, open_) (ground arith) in
      let (current, delivers) =
        after_walk-deliver env again m (push_sub w m sub) c cs k ch known alone is_first waits in
      let there =
        on_socket (Ops.remove_receiver m.id)
          (place c.at true c.index current c.params (push_sub w m sub)) in
      let run : next_fuel env (suc fuel) (push_sub w m sub)
          ≡ deferred try_update_parent (returned (handed ch m there)) =
        next_step-walk env again m (push_sub w m sub) going refl no_path
        ∙ ap (deferred try_update_parent)
            (delivers ∙ deliver-handed ch m there channel_open empty) in
      let v = pop (finalize (try_update_parent (handed ch m there))) in
      (
        v,
        ap (route_message env outer sub w) here
            ∙ ap (λ (o : Outcome). leave_on_panic o >>= after_sub env outer) run,
        rw alone (ground arith),
        after_chain-held m.id v m here ∙ rw (known, text_eq_refl m.id) refl,
      )
