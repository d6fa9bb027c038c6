-- ===== src/Context/Next.antt =====
-- context_next.go and the methods `Handle`, `HandleOpen` and `HandleClose` of router.go: `Next`.
use velaros.Base.{
  ℕ, zero, suc, ◌+◌, Bool, true, false, not, ◌&&◌, ◌||◌, Option, none, some, [], codes,
  if◌then◌else◌,
}
use velaros.Pattern.Defs.{Pattern}
use velaros.Pattern.Matching.{MessageParams, Matching, no_match, matched}
use velaros.Socket.Defs.{InboundMessage, Channel}
use velaros.Socket.Ops
use velaros.Context.Defs.{
  Environment, Reply, Script, ret, panic, next, call, Handler, func, object, router, Node, nil,
  node, BindType, normal_bind_type, open_bind_type, close_bind_type, World, Outcome, returned,
  panicked, blocked, out_of_fuel, ◌>>=◌,
}
use velaros.Context.Ops.{perform}
use velaros.Context.Calls.{
  reply, panics, waits, node_address, Result, nil_dereference, on_ctx, on_socket,
}
use velaros.Context.Sub.{push_sub, pop, finalize, try_update_parent}
use velaros.Context.Chain.{Walk, ended, found, walk_panics, walk, try_match}

abbrev pub is_some {ℓ} : {A : Type ℓ} → Option A → Bool
is_some none = false
is_some (some _) = true

abbrev pub bind_type_of : Node → BindType
bind_type_of nil = normal_bind_type
bind_type_of (node _ b _ _ _) = b

abbrev pub is_close : BindType → Bool
is_close close_bind_type = true
is_close _ = false

abbrev pub is_open : BindType → Bool
is_open open_bind_type = true
is_open _ = false

abbrev pub next_node : Node → Node
next_node nil = nil
next_node (node _ _ _ _ rest) = rest

abbrev pub pattern_of : Node → Option Pattern
pattern_of nil = none
pattern_of (node _ _ p _ _) = p

-- `execWithCtxRecovery`
abbrev pub exec_with_ctx_recovery : Outcome → Outcome
exec_with_ctx_recovery (panicked e trace w) =
    returned (on_ctx (λ c. record c { err = some e; error_stack = trace }) w)
exec_with_ctx_recovery o = o

-- A deferred call runs at a return and at a panic.
abbrev pub deferred : (World → World) → Outcome → Outcome
deferred f (returned w) = returned (f w)
deferred f (panicked e trace w) = panicked e trace (f w)
deferred f o = o

-- A panic that leaves a router leaves its sub-context too.
abbrev pub leave_on_panic : Outcome → Outcome
leave_on_panic (panicked e trace w) = panicked e trace (pop w)
leave_on_panic o = o

-- The message is sent to the receiver's channel, which has room for one, unless the socket is
-- done; in both cases the context gives the message up. A channel that is closed panics. Where the
-- channel has room and the socket is done, Go's `select` may take either way; here it sends.
abbrev pub deliver_to : ℕ → Channel → InboundMessage → World → Outcome
deliver_to ch chan m w =
    if chan.closed
    then panicked (codes "send on closed channel") [] w
    else if not (is_some chan.buffer)
    then returned (
        on_ctx (λ c. record c { message = none })
          (on_socket
            (λ s. record s {
              channels = Ops.update s.channels ch (record { buffer = some m; closed = false });
            })
            w))
    else if w.socket.cancelled
    then returned (on_ctx (λ c. record c { message = none }) w)
    else blocked w

abbrev pub deliver : ℕ → InboundMessage → World → Outcome
deliver ch m w = deliver_to ch (w.socket.channels ch) m w

abbrev pub reset : World → World
reset w =
    on_ctx
      (λ c. record c {
        current_handler_node = nil;
        current_handler_node_matches = false;
        current_handler_index = 0;
        current_handler = none;
      })
      w

-- The end of the chain, with no handler left.
abbrev pub beyond_end : InboundMessage → World → World
beyond_end m w =
    let w' = on_ctx (λ c. record c { next_beyond_end = true }) w in
    if m.has_set_id && not (is_some w.ctx.receiver_chan)
    then on_socket (Ops.remove_receiver m.id) w'
    else w'

abbrev pub at_end : InboundMessage → Option Handler → World → Outcome
at_end m none w = returned (beyond_end m w)
at_end m (some h) w = panicked nil_dereference [] w

-- A receiver that waits at this handler.
abbrev pub waiting_receiver : InboundMessage → Node → ℕ → World → Option ℕ
waiting_receiver m n i w =
    if m.has_set_id && not (is_some w.ctx.receiver_chan)
    then Ops.get_receiver_for_node m.id (node_address n) i w.socket
    else none

abbrev pub place : Node → Bool → ℕ → Option Handler → MessageParams → World → World
place n matches i current params w =
    on_ctx
      (λ c. record c {
        current_handler_node = n;
        current_handler_node_matches = matches;
        current_handler_index = i;
        current_handler = current;
        params = params;
      })
      w

abbrev pub path_seen : InboundMessage → InboundMessage
path_seen m = record m { has_set_path = false }

abbrev pub stops : World → Bool
stops w =
    not (is_close (bind_type_of w.ctx.current_handler_node))
    && (is_some w.ctx.err || w.socket.closed)

-- A script goes on with the reply of a call.
abbrev pub after_op : (Reply → World → Outcome) → Result → Outcome
after_op go (reply r w) = go r w
after_op go (panics e w) = panicked e [] w
after_op go (waits w) = blocked w

module _ (env : Environment) (again : World → Outcome) where
  unfoldable pub run_script : Script → World → Outcome
  run_script ret w = returned w
  run_script (panic e trace) w = panicked e trace w
  run_script (next k) w = again w >>= run_script k
  run_script (call op k) w = after_op (λ r w'. run_script (k r) w') (perform env op w)

  -- the end of `Handle`, `HandleOpen` and `HandleClose`
  abbrev pub after_sub : World → Outcome
  after_sub w =
      if w.ctx.next_beyond_end then again (pop (finalize w)) else returned (pop (finalize w))

  abbrev pub route_message : Node → World → Option InboundMessage → Outcome
  route_message first_handler_node w none = panicked nil_dereference [] w
  route_message first_handler_node w (some m) =
      leave_on_panic (again (push_sub w m first_handler_node)) >>= after_sub

  -- `Router.Handle`, `HandleOpen` and `HandleClose`, on the chain that each of them runs
  unfoldable pub route_through : Node → World → Outcome
  route_through first_handler_node w = route_message first_handler_node w w.ctx.message

  -- The handler's body for this bind type, or none where its type is unknown there.
  abbrev pub body_of : BindType → Handler → Option (World → Outcome)
  body_of b (func _ s) = some (run_script s)
  body_of open_bind_type (object _ _ (some s) _) = some (run_script s)
  body_of close_bind_type (object _ _ _ (some s)) = some (run_script s)
  body_of normal_bind_type (object _ (some s) _ _) = some (run_script s)
  body_of open_bind_type (router _ _ opens _ _) = some (route_through opens)
  body_of close_bind_type (router _ _ _ closes _) = some (route_through closes)
  body_of normal_bind_type (router _ messages _ _ _) = some (route_through messages)
  body_of _ _ = none

  -- the end of `Next`: handlers of open and close chains go on by themselves
  abbrev pub go_on : BindType → World → Outcome
  go_on b w =
      (if (is_open b && not w.socket.closed) || is_close b then again w else returned w) >>= λ w'.
      returned (reset w')

  abbrev pub run_body : BindType → Option (World → Outcome) → World → Outcome
  run_body b none w = panicked (codes "Unknown handler type") [] w
  run_body b (some body) w = exec_with_ctx_recovery (body w) >>= go_on b

  unfoldable pub run_handler : BindType → Handler → World → Outcome
  run_handler b h w = run_body b (body_of b h) w

  abbrev pub at_handler : InboundMessage → Node → ℕ → Handler → World → Option ℕ → Outcome
  at_handler m n i h w (some ch) = deliver ch m (on_socket (Ops.remove_receiver m.id) w)
  at_handler m n i h w none =
      run_handler (bind_type_of n) h
        (on_ctx (λ c. record c { current_handler = some h; current_handler_index = i + 1 }) w)

  abbrev pub after_walk : InboundMessage → World → Walk → Outcome
  after_walk m w (ended matches i current params) =
      at_end m current (place nil matches i current params w)
  after_walk m w (found n i h current params) =
      let w' = place n true i current params w in at_handler m n i h w' (waiting_receiver m n i w')
  after_walk m w (walk_panics params) = panicked (codes "slice bounds out of range") [] w

  abbrev pub walk_from : InboundMessage → World → Outcome
  walk_from m w = after_walk m w (
      walk env.engine m.path w.ctx.current_handler_node w.ctx.current_handler_node_matches
        w.ctx.current_handler_index w.ctx.current_handler w.ctx.params)

  abbrev pub with_path_seen : InboundMessage → World → Outcome
  with_path_seen m w =
      walk_from (path_seen m) (on_ctx (λ c. record c { message = some (path_seen m) }) w)

  -- The path was set: the node at hand is kept if it matches the new path.
  abbrev pub recheck : InboundMessage → World → Matching → Outcome
  recheck m w no_match =
      with_path_seen m (place (next_node w.ctx.current_handler_node) false 0 none w.ctx.params w)
  recheck m w Matching.panics = panicked (codes "slice bounds out of range") [] w
  recheck m w (matched params) = with_path_seen m (on_ctx (λ c. record c { params = params }) w)

  abbrev pub with_message : World → Option InboundMessage → Outcome
  with_message w none = panicked nil_dereference [] w
  with_message w (some m) =
      if m.has_set_path
      then if w.ctx.current_handler_node_matches
        then recheck m w
            (try_match env.engine m.path (pattern_of w.ctx.current_handler_node) w.ctx.params)
        else with_path_seen m w
      else walk_from m w

  -- One call of `Next`; `again` is every call of `Next` that it leads to.
  unfoldable pub next_step : World → Outcome
  unfolding run_script route_through run_handler
  next_step w =
      deferred try_update_parent (if stops w then returned w else with_message w w.ctx.message)

-- `Next`, with the depth of nested calls for fuel.
unfoldable pub next_fuel : Environment → ℕ → World → Outcome
unfolding next_step
next_fuel env zero w = out_of_fuel
next_fuel env (suc fuel) w = next_step env (next_fuel env fuel) w
