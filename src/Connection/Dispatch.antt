-- ===== src/Connection/Dispatch.antt =====
-- socket.go, context_next.go and the middleware of a format: a message on its way to its handlers.
use velaros.Base.{
  ◌⊎◌, inl, ap, sym, ◌∙◌, ℕ, suc, ◌≡◌, refl, true, false, Option, none, some, List, [], ◌∷◌, Text,
  arith,
}
use mathlib.Core.Path.{subst}
use velaros.Pattern.Defs.{Pattern}
use velaros.Base.Maps.{TextMap, lookup}
use velaros.Pattern.Matching.{MessageParams, matched}
use velaros.Pattern.Matching.Agreement.{Documented}
use velaros.Socket.Defs.{Value, Bytes, InboundMessage, SocketMessage, Socket}
use velaros.Context.Defs.{
  Environment, func, no_handlers, handler, Node, node, normal_bind_type, World, Outcome, returned,
  panicked, blocked, out_of_fuel, ◌>>=◌,
}
use velaros.Context.Calls.{on_ctx, header_of}
use velaros.Context.Sub.{new_context, finalize, try_update_parent}
use velaros.Context.Chain.{try_match, walk, slot_at, size, handler_at, found}
use velaros.Context.Order.{remaining, candidates, walk-IsFirst, Candidate}
use velaros.Context.Next.{
  exec_with_ctx_recovery, deferred, go_on, next_step, next_fuel, path_seen, stops, pattern_of,
  after_walk, run_script,
}
use velaros.Context.Layers.{
  enter, next_step-walk, after_walk-func, Layer, effects_of, error_of, Layered, Ready, Ends,
  Unclaimed,
}
use velaros.Context.Layers.Running.{next_fuel-Layered, length-Layered}
use velaros.Context.Termination.Weight.{left, left_at, weight, weight_of}
use velaros.Context.Termination.Reachable.{length-candidates}
use velaros.Connection.Undisturbed.{
  Undisturbed, release_own-Undisturbed, socket_for_receivers, socket_for_closed,
}
use velaros.Connection.Message.{
  inbound, on_connection, run_next, after_chain, handle_message, release_own,
}
use velaros.Middleware.Envelope.{Envelope, Format, refuses, protocol_header, middleware, unpacked}
use velaros.Middleware.Handled.{refuses-speaks, prepared, with_envelope, id_taken, socket_for}
use velaros.Middleware.Unpacking.{middleware-handled}

-- The node of the middleware, at the front of a chain.
abbrev pub behind_middleware : ℕ → ℕ → Format → Option Pattern → Node → Node
behind_middleware a p f po rest =
    node a normal_bind_type po (handler (func p (middleware f)) no_handlers) rest

-- The layers ran, and left the socket undisturbed.
abbrev pub Dispatched : List Layer → List ℕ → Socket → Outcome → Type 0
Dispatched ls es s (returned w) =
    (w.effects ≡ effects_of ls es) × (w.ctx.err ≡ error_of ls) × Undisturbed s w.socket
Dispatched ls es s _ = ⊥

-- `Next` where middleware set the path, and the node at hand matches the new path as well.
next_step-path_seen :
    (env : Environment) (again : World → Outcome) (m : InboundMessage) (w : World)
    (params : MessageParams)
    → stops w ≡ false
    → w.ctx.message ≡ some m
    → m.has_set_path ≡ true
    → w.ctx.current_handler_node_matches ≡ true
    → try_match env.engine m.path (pattern_of w.ctx.current_handler_node) w.ctx.params
      ≡ matched params
    → next_step env again w
      ≡ next_step env again
          (on_ctx (λ c. record c { message = some (path_seen m); params = params }) w)
unfolding next_step
next_step-path_seen env again m w params going here set matches hit =
    rw (going, here, set, matches, hit)

Dispatched-after :
    (env : Environment) (again : World → Outcome) (ls : List Layer) (m : InboundMessage) (w : World)
    (o : Outcome) (s : Socket)
    → w.ctx.message ≡ some m
    → Undisturbed s (release_own (some m) w.socket)
    → w.ctx.receiver_chan ≡ none
    → Ends ls w o
    → Dispatched ls w.effects s (
        deferred try_update_parent (exec_with_ctx_recovery o >>= go_on env again normal_bind_type)
        >>= λ v. returned (after_chain v))
unfolding try_update_parent finalize
Dispatched-after env again ls m w (returned v) s here freed alone
      (effects, error, socket, message, channel) =
    rw (message, here, socket, channel, alone) (effects, error, freed)
Dispatched-after env again ls m w (panicked _ _ v) s here freed alone h = absurd h
Dispatched-after env again ls m w (blocked v) s here freed alone h = absurd h
Dispatched-after env again ls m w out_of_fuel s here freed alone h = absurd h

module _ (env : Environment) (f : Format) (uuid : Text) (a p : ℕ) (po : Option Pattern)
    (rest : Node) (m : SocketMessage) (s : Socket) (es : List ℕ) (id : Text) (c : ℕ) (cs : Text)
    (meta : Option (TextMap Value)) (message_data : Option Bytes)
    (params params' : MessageParams) where
  -- An envelope to a path that is not empty.
  abbrev e : Envelope
  e = record { id = id; path = c ∷ cs; meta = meta; message_data = message_data }

  abbrev chain : Node
  chain = behind_middleware a p f po rest

  abbrev arrived : World
  arrived = on_connection uuid (inbound m) chain m.type s es

  abbrev raw : InboundMessage
  raw = record (inbound m) { id = uuid }

  abbrev first : Candidate
  first = record { at = chain; index = 0; handler = func p (middleware f); params = params }

  abbrev message : InboundMessage
  message = with_envelope e raw

  -- The context that the middleware leaves to the handlers behind it.
  abbrev left_behind : World
  left_behind = prepared f e raw (socket_for id s) (enter first arrived)

  abbrev rechecked : World
  rechecked =
      on_ctx (λ c. record c { message = some (path_seen message); params = params' }) left_behind

  -- The middleware unpacks the message and calls `Next` once.
  enter-middleware :
      (again : World → Outcome)
      → s.closed ≡ false
      → refuses f (header_of protocol_header env.connection_info) ≡ false
      → f.unpack m.raw_data ≡ unpacked e
      → id_taken id s ≡ false
      → try_match env.engine [] po [] ≡ matched params
      → next_step env again arrived
        ≡ deferred try_update_parent
            (exec_with_ctx_recovery (again left_behind) >>= go_on env again normal_bind_type)
  unfolding walk slot_at size handler_at new_context
  enter-middleware again open_ taken unpacks free hit =
      let found_first : walk env.engine [] chain false 0 none []
          ≡ found chain 0 (func p (middleware f)) none params =
        rw (hit, walk) refl in
      let runs =
        after_walk-func env again normal_bind_type raw arrived first
          (remaining env.engine [] chain true 1 params)
          (found chain 0 (func p (middleware f)) none params) p (middleware f) (inl refl)
          (refl, refl, (λ q. cc)) refl refl in
      let middle : run_script env again (middleware f) (enter first arrived) ≡ again left_behind =
        middleware-handled env again f raw (enter first arrived) refl
        ∙ rw (refuses-speaks f _ taken, unpacks, free) refl in
      next_step-walk env again raw arrived (rw open_ refl) refl refl
      ∙ ap (λ k. deferred try_update_parent (after_walk env again raw arrived k)) found_first
      ∙ ap (deferred try_update_parent)
          (runs ∙ ap (λ o. exec_with_ctx_recovery o >>= go_on env again normal_bind_type) middle)

  rechecked-Ready :
      Documented env.engine
      → s.closed ≡ false
      → Unclaimed message (socket_for id s)
      → Ready env.engine (candidates env.engine (c ∷ cs) rest params') (path_seen message) rechecked
  unfolding walk slot_at size handler_at new_context
  rechecked-Ready safe open_ alone = record {
    message_is = refl;
    unclaimed = alone;
    no_path = refl;
    no_error = refl;
    is_open = socket_for_closed id s ∙ open_;
    at_first = walk-IsFirst env.engine (c ∷ cs) rest safe params';
  }

  -- A message that unpacks to an envelope to a path that is not empty, on an open socket, at a chain
  -- whose first node has the middleware of a format whose subprotocol the client did not refuse, and
  -- whose pattern, if it has one, matches both the empty path and the envelope's; the envelope has no
  -- id, or one whose lock is free and that no receiver is registered for: the goroutine of the message
  -- returns; the handlers that the envelope's path reaches behind the middleware ran as layers, one
  -- inside the other, with their effects and their error; and on the socket the same locks are taken as
  -- before, that of the envelope's id is free again, and the receivers, the channels and what was
  -- written are as before. The engine behaves as package regexp documents.
  pub handle_message-Dispatched :
      (ls : List Layer)
      → Documented env.engine
      → s.closed ≡ false
      → refuses f (header_of protocol_header env.connection_info) ≡ false
      → f.unpack m.raw_data ≡ unpacked e
      → id_taken id s ≡ false
      → Unclaimed message s
      → try_match env.engine [] po [] ≡ matched params
      → try_match env.engine (c ∷ cs) po params ≡ matched params'
      → Layered (candidates env.engine (c ∷ cs) rest params') ls
      → Dispatched ls es s (handle_message env uuid chain m s es)
  unfolding handle_message run_next next_fuel new_context left_at weight_of
  handle_message-Dispatched ls safe open_ taken unpacks free alone hit hit' layered =
      let again = next_fuel env (suc (weight rest)) in
      let seen : again left_behind ≡ again rechecked =
        next_step-path_seen env (next_fuel env (weight rest)) message left_behind params'
          (rw (socket_for_closed id s, open_) refl) refl refl refl hit' in
      let alone' : Unclaimed message (socket_for id s) =
        subst (λ r. (message.has_set_id ≡ false) ⊎ (lookup message.id r ≡ none))
          (sym (socket_for_receivers id s)) alone in
      let runs : Ends ls rechecked (again rechecked) =
        next_fuel-Layered env ls (candidates env.engine (c ∷ cs) rest params') (path_seen message)
          rechecked (suc (weight rest)) safe layered (rechecked-Ready safe open_ alone')
          (omega (
            arith,
            length-Layered _ ls layered,
            length-candidates env.engine (c ∷ cs) rest params',
          )) in
      let fuel : left arrived.ctx ≡ suc (weight rest) = omega arith in
      let finish : Outcome → Outcome = λ o.
        deferred try_update_parent
          (exec_with_ctx_recovery o >>= go_on env again normal_bind_type) in
      let steps : run_next env arrived ≡ finish (again rechecked) =
        ap (λ n. next_fuel env (suc n) arrived) fuel
        ∙ enter-middleware again open_ taken unpacks free hit
        ∙ ap finish seen in
      subst (λ o. Dispatched ls es s (o >>= λ w. returned (after_chain w))) (sym steps)
        (Dispatched-after env again ls (path_seen message) rechecked (again rechecked) s refl
          (release_own-Undisturbed e raw s refl free) refl runs)
