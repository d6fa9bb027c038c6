-- ===== src/Router/Valid.antt =====
-- router.go: what the checks of `bind` make sure of, for every chain that registrations build.
use velaros.Base.{ℕ, suc, ◌≡◌, refl, Option, none, some, List, ◌++◌, Text, All, inl, inr}
use velaros.Pattern.Defs.{Pattern, Engine}
use velaros.Pattern.Matching.{MessageParams}
use velaros.Context.Defs.{
  Environment, World, Outcome, returned, Handler, func, object, router, other, Handlers,
  no_handlers, handler, Node, nil, node, normal_bind_type,
}
use velaros.Context.Chain.{try_match}
use velaros.Context.Order.{Candidate, all_from, candidates, Matching-cases}
use velaros.Context.Recovery.{IsHandler, IsMessageHandler}
use velaros.Router.Defs.{new_router}
use velaros.Router.Calls.{Call, register_all}
use velaros.Router.Typed.{Runs, RunsAll, Typed, register_all-Typed}

abbrev pub AllHandlers : Handlers → Type 0
AllHandlers no_handlers = Unit
AllHandlers (handler h hs) = IsHandler h × AllHandlers hs

-- Every node is one of messages, and every handler there is one that `Next` can run.
abbrev pub IsMessageChain : Node → Type 0
IsMessageChain nil = Unit
IsMessageChain (node a b p hs rest) = (b ≡ normal_bind_type) × AllHandlers hs × IsMessageChain rest

all_from-valid :
    (a : ℕ) (p : Option Pattern) (hs' : Handlers) (rest : Node) (i : ℕ) (hs : Handlers)
    (params : MessageParams) (cs : List Candidate)
    → AllHandlers hs
    → All IsMessageHandler cs
    → All IsMessageHandler (all_from (node a normal_bind_type p hs' rest) i hs params ++ cs)
all_from-valid a p hs' rest i no_handlers params cs h h' = h'
all_from-valid a p hs' rest i (handler x hs) params cs (known, h) h' =
    ((refl, known), all_from-valid a p hs' rest (suc i) hs params cs h h')

-- The handlers that `Next` reaches on such a chain are such handlers.
pub candidates-valid :
    (re : Engine) (path : Text) (n : Node) (params : MessageParams)
    → IsMessageChain n
    → All IsMessageHandler (candidates re path n params)
unfolding candidates
candidates-valid re path nil params h = tt
candidates-valid re path (node a b p hs rest) params (normal, valid, h) =
    elim (Matching-cases (try_match re path p params)) [
      | inl missed ↦ rw (missed, candidates) (candidates-valid re path rest params h)
      | inr (inl bad) ↦ rw (bad, candidates) tt
      | inr (inr (params', hit)) ↦
          rw (hit, candidates, normal)
            (all_from-valid a p hs rest 0 hs params' _ valid
              (candidates-valid re path rest params' h))
    ]

Runs-IsHandler :
    (env : Environment) (again : World → Outcome) (h : Handler)
    → Runs env again normal_bind_type h
    → IsHandler h
Runs-IsHandler env again (func _ _) runs = tt
Runs-IsHandler env again (object _ (some _) _ _) runs = tt
Runs-IsHandler env again (object _ none _ _) runs = absurd cc
Runs-IsHandler env again (router _ _ _ _ _) runs = tt
Runs-IsHandler env again (other _) runs = absurd cc

RunsAll-AllHandlers :
    (env : Environment) (again : World → Outcome) (hs : Handlers)
    → RunsAll env again normal_bind_type hs
    → AllHandlers hs
RunsAll-AllHandlers env again no_handlers runs = tt
RunsAll-AllHandlers env again (handler h hs) (runs, rest) =
    (Runs-IsHandler env again h runs, RunsAll-AllHandlers env again hs rest)

Typed-IsMessageChain :
    (env : Environment) (again : World → Outcome) (n : Node)
    → Typed env again normal_bind_type n
    → IsMessageChain n
Typed-IsMessageChain env again nil typed = tt
Typed-IsMessageChain env again (node a b p hs rest) (normal, runs, typed) =
    (normal, RunsAll-AllHandlers env again hs runs, Typed-IsMessageChain env again rest typed)

-- After any sequence of registrations, returning or panicking ones, the chain of messages of a new
-- router has only nodes of messages, and only handlers that `Next` can run there.
pub register_all-IsMessageChain :
    (env : Environment) (calls : List Call) (base : ℕ)
    → IsMessageChain (register_all env.engine calls (new_router base)).first_handler_node
register_all-IsMessageChain env calls base =
    let (messages, opens, closes) = register_all-Typed env returned calls base in
    Typed-IsMessageChain env returned _ messages
