-- ===== src/Connection/Registered.antt =====
-- router.go, socket.go, context_next.go and the middleware of a format: from the registrations of a
-- program to the handlers that a message runs.
use velaros.Base.{ℕ, ◌≡◌, refl, sym, ap, ◌∙◌, false, Option, some, List, [], ◌∷◌, Text, codes, All}
use mathlib.Core.Path.{subst}
use velaros.Pattern.Defs.{Pattern, Engine}
use velaros.Base.Maps.{TextMap}
use velaros.Pattern.Matching.{MessageParams, matched, match_into}
use velaros.Pattern.Matching.Agreement.{Documented}
use velaros.Pattern.Compile.{new_pattern}
use velaros.Pattern.Compile
use velaros.Socket.Defs.{Value, Bytes, SocketMessage, Socket}
use velaros.Context.Defs.{Environment, func, no_handlers, handler, Node, nil}
use velaros.Context.Calls.{header_of}
use velaros.Context.Chain.{try_match}
use velaros.Context.Order.{Candidate, candidates}
use velaros.Context.Recovery.{IsMessageHandler}
use velaros.Context.Layers.{Layer, script_of, Layered, Unclaimed}
use velaros.Connection.Message.{inbound, handle_message}
use velaros.Connection.Dispatch.{Dispatched, behind_middleware, handle_message-Dispatched}
use velaros.Middleware.Envelope.{Envelope, Format, refuses, protocol_header, middleware, unpacked}
use velaros.Middleware.Handled.{with_envelope, id_taken}
use velaros.Router.Defs.{new_router, handler_argument}
use velaros.Router.Ops.{append_node, valid_handlers, without_options}
use velaros.Router.Calls.{Call, use_call, router_after, register, register_all}
use velaros.Router.Served.{
  Served, served, served_of, binding, Extended, register-Extended, Adds, register_all-Adds,
}
use velaros.Router.Valid.{IsMessageChain, candidates-valid, register_all-IsMessageChain}

-- The handlers that are served are those of these layers.
abbrev pub Are : List Served → List Layer → Type 0
Are [] [] = Unit
Are (v ∷ vs) (l ∷ ls) = ((p : ℕ) × (v.handler ≡ func p (script_of l))) × Are vs ls
Are _ _ = ⊥

Are-Layered :
    (cs : List Candidate) (ls : List Layer)
    → All IsMessageHandler cs
    → Are (served_of cs) ls
    → Layered cs ls
Are-Layered [] [] valid are = tt
Are-Layered [] (l ∷ ls) valid are = absurd are
Are-Layered (c ∷ cs) [] valid are = absurd are
Are-Layered (c ∷ cs) (l ∷ ls) ((normal, known), valid) (is, are) =
    (normal, is, Are-Layered cs ls valid are)

-- `router.Use(Middleware())`
abbrev pub uses : ℕ → Format → Call
uses p f = use_call (handler_argument (func p (middleware f)) ∷ [])

module _ (re : Engine) (p : ℕ) (f : Format) (po : Pattern) where
  uses-binding :
      new_pattern re (codes "/**") ≡ Compile.ok po
      → binding re (uses p f) ≡ some (po, handler (func p (middleware f)) no_handlers)
  unfolding without_options valid_handlers
  uses-binding compiles = rw compiles refl

  -- A new router's chain once the middleware was used there first.
  uses-chain :
      (calls : List Call) (base : ℕ)
      → new_pattern re (codes "/**") ≡ Compile.ok po
      → (path : Text)
      → (a : ℕ) × (n : Node) × ((register_all re
            (uses p f ∷ calls)
            (new_router base)).first_handler_node
          ≡ behind_middleware a p f (some po) n)
        × ((params : MessageParams)
            → served_of (candidates re path n params) ≡ served re path calls params)
  unfolding Adds append_node
  uses-chain calls base compiles path =
      let (a, first) : Extended (some (po, handler (func p (middleware f)) no_handlers)) nil
          (router_after (register re (uses p f) (new_router base))).first_handler_node =
        subst
          (λ b.
            Extended b nil
              (router_after (register re (uses p f) (new_router base))).first_handler_node)
          (uses-binding compiles) (register-Extended re (uses p f) (new_router base)) in
      let (n, is, serves) =
        register_all-Adds re path calls (router_after (register re (uses p f) (new_router base))) in
      (a, n, is ∙ ap (λ k. append_node k n) first, serves)

module _ (env : Environment) (f : Format) (uuid : Text) (p : ℕ) (po : Pattern) (calls : List Call)
    (base : ℕ) (m : SocketMessage) (s : Socket) (es : List ℕ) (id : Text) (c : ℕ) (cs : Text)
    (meta : Option (TextMap Value)) (message_data : Option Bytes)
    (params params' : MessageParams) where
  abbrev e : Envelope
  e = record { id = id; path = c ∷ cs; meta = meta; message_data = message_data }

  abbrev chain : Node
  chain = (register_all env.engine (uses p f ∷ calls) (new_router base)).first_handler_node

  -- On a router where the middleware of a format was used first, and whatever calls came then: a
  -- message that unpacks to an envelope to a path that is not empty, on an open socket, of a client
  -- that did not refuse the format's subprotocol; the envelope has no id, or one whose lock is free and
  -- that no receiver is registered for; the pattern /** matches the empty path and the envelope's; and
  -- the handlers of the calls of `Bind`, `PublicBind` and `Use` that do not panic and whose pattern
  -- matches the envelope's path all work before and after `Next`, or do not call `Next`, or panic.
  -- The goroutine of the message returns; those handlers ran in the order of the calls and of their
  -- arguments as layers, one inside the other, with their effects and their error, down to the first
  -- that does not call `Next`; and on the socket the same locks are taken as before, that of the
  -- envelope's id is free again, and the receivers, the channels and what was written are as before.
  -- The engine behaves as package regexp documents.
  pub handle_message-served :
      (ls : List Layer)
      → Documented env.engine
      → s.closed ≡ false
      → refuses f (header_of protocol_header env.connection_info) ≡ false
      → f.unpack m.raw_data ≡ unpacked e
      → id_taken id s ≡ false
      → Unclaimed (with_envelope e (record (inbound m) { id = uuid })) s
      → new_pattern env.engine (codes "/**") ≡ Compile.ok po
      → match_into env.engine po [] [] ≡ matched params
      → match_into env.engine po (c ∷ cs) params ≡ matched params'
      → Are (served env.engine (c ∷ cs) calls params') ls
      → Dispatched ls es s (handle_message env uuid chain m s es)
  unfolding try_match
  handle_message-served ls safe open_ taken unpacks free alone compiles hit hit' are =
      let (a, n, is, serves) = uses-chain env.engine p f po calls base compiles (c ∷ cs) in
      let (normal, known, valid) =
        subst IsMessageChain is (register_all-IsMessageChain env (uses p f ∷ calls) base) in
      let layered =
        Are-Layered (candidates env.engine (c ∷ cs) n params') ls
          (candidates-valid env.engine (c ∷ cs) n params' valid)
          (subst (λ vs. Are vs ls) (sym (serves params')) are) in
      subst (λ k. Dispatched ls es s (handle_message env uuid k m s es)) (sym is)
        (handle_message-Dispatched env f uuid a p (some po) n m s es id c cs meta message_data
          params params' ls safe open_ taken unpacks free alone hit hit' layered)
