-- ===== src/Router/Served.antt =====
-- router.go: the handlers that a message's path reaches, read off the registrations.
use velaros.Base.{
  ℕ, suc, ◌≡◌, refl, sym, ap, ◌∙◌, Bool, false, Option, none, some, List, [], ◌∷◌, ◌++◌, Text,
  codes, inl, inr, if◌then◌else◌, arith,
}
use velaros.Pattern.Defs.{Pattern, Engine}
use velaros.Pattern.Matching.{MessageParams, Matching, no_match, panics, matched, match_into}
use velaros.Pattern.Compile.{NewPattern, new_pattern}
use velaros.Pattern.Compile
use velaros.Context.Defs.{
  Handler, Handlers, no_handlers, handler, Node, nil, node, normal_bind_type,
}
use velaros.Context.Chain.{try_match}
use velaros.Context.Order.{Candidate, all_from, candidates, Matching-cases}
use velaros.Router.Defs.{Router, new_router, Argument, path_argument, Registration, done, panicked}
use velaros.Router.Ops.{
  append_node, valid_handlers, use_open, use_close, without_options, bind, mount_path_of,
  use_handlers,
}
use velaros.Router.Calls.{
  Call, bind_call, use_call, use_open_call, use_close_call, router_after, register, register_all,
}
use velaros.Router.Appending.{Appends, bind-Appends}
use velaros.Router.Accepts.{returns-bind}
use velaros.Router.Taking.{returns, accepts}

-- The pattern and the handlers that a registration adds for messages, if it does not panic.
abbrev compiled : NewPattern → Option Handlers → Option (Pattern × Handlers)
compiled (Compile.ok p) (some hs) = some (p, hs)
compiled _ _ = none

abbrev bound : Engine → Bool → Text → List Argument → Option (Pattern × Handlers)
bound re is_public path args =
    if accepts re is_public path args
    then compiled (new_pattern re path) (valid_handlers normal_bind_type (without_options args))
    else none

abbrev used : List Argument → Text × List Argument
used (path_argument path ∷ args) = (mount_path_of path, args)
used args = (codes "/**", args)

abbrev pub binding : Engine → Call → Option (Pattern × Handlers)
binding re (bind_call is_public path args) = bound re is_public path args
binding re (use_call args) = bound re false ((used args).0) ((used args).1)
binding re (use_open_call args) = none
binding re (use_close_call args) = none

-- A handler with its place among the arguments of its registration, and the parameters with which it
-- runs.
pub record Served : Type 0 where
  pub index : ℕ
  pub handler : Handler
  pub params : MessageParams

abbrev handlers_from : ℕ → Handlers → MessageParams → List Served
handlers_from i no_handlers params = []
handlers_from i (handler h hs) params =
    (record { index = i; handler = h; params = params }) ∷ handlers_from (suc i) hs params

abbrev at_match : Handlers → (MessageParams → List Served) → MessageParams → Matching → List Served
at_match hs rest params (matched params') = handlers_from 0 hs params' ++ rest params'
at_match hs rest params no_match = rest params
at_match hs rest params panics = []

abbrev at_binding :
    Engine
    → Text
    → Option (Pattern × Handlers)
    → (MessageParams → List Served)
    → MessageParams
    → List Served
at_binding re path none rest params = rest params
at_binding re path (some (p, hs)) rest params =
    at_match hs rest params (match_into re p path params)

-- The handlers of all registrations whose pattern matches the path, in the order of the
-- registrations and of their arguments.
abbrev pub served : Engine → Text → List Call → MessageParams → List Served
served re path [] params = []
served re path (c ∷ cs) params = at_binding re path (binding re c) (served re path cs) params

abbrev pub served_of : List Candidate → List Served
served_of [] = []
served_of (c ∷ cs) =
    (record { index = c.index; handler = c.handler; params = c.params }) ∷ served_of cs

served_of-append : (xs ys : List Candidate) → served_of (xs ++ ys) ≡ served_of xs ++ served_of ys
served_of-append [] ys = refl
served_of-append (c ∷ cs) ys = rw (served_of-append cs ys)

served_of-all_from :
    (n : Node) (i : ℕ) (hs : Handlers) (params : MessageParams)
    → served_of (all_from n i hs params) ≡ handlers_from i hs params
served_of-all_from n i no_handlers params = refl
served_of-all_from n i (handler h hs) params = rw (served_of-all_from n (suc i) hs params)

append_node-nil : (n : Node) → append_node n nil ≡ n
unfolding append_node
append_node-nil nil = refl
append_node-nil (node a b p hs rest) = rw (append_node-nil rest)

append_node_assoc :
    (k m n : Node) → append_node (append_node k m) n ≡ append_node k (append_node m n)
unfolding append_node
append_node_assoc nil m n = refl
append_node_assoc (node a b p hs rest) m n = rw (append_node_assoc rest m n)

-- A chain with the node of a registration behind it.
abbrev pub Extended : Option (Pattern × Handlers) → Node → Node → Type 0
Extended none old new = new ≡ old
Extended (some (p, hs)) old new =
    (a : ℕ) × (new ≡ append_node old (node a normal_bind_type (some p) hs nil))

bound-Extended :
    (re : Engine) (is_public : Bool) (path : Text) (args : List Argument) (old : Node)
    (x : Registration)
    → returns x ≡ accepts re is_public path args
    → Appends re path args old x
    → Extended (bound re is_public path args) old (router_after x).first_handler_node
bound-Extended re is_public path args old (done r) taken (p, hs, a, compiles, valid, chain) =
    let is : bound re is_public path args ≡ some (p, hs) = rw (← taken, compiles, valid) refl in
    rw is (a, chain)
bound-Extended re is_public path args old (panicked why r) taken chain =
    let is : bound re is_public path args ≡ none = rw (← taken) refl in rw is chain

bind-Extended :
    (re : Engine) (is_public : Bool) (path : Text) (args : List Argument) (r : Router)
    → Extended
        (bound re is_public path args)
        r.first_handler_node
        (router_after (bind re is_public path args r)).first_handler_node
bind-Extended re is_public path args r =
    bound-Extended re is_public path args r.first_handler_node (bind re is_public path args r)
      (returns-bind re is_public path args r) (bind-Appends re is_public path args r)

pub register-Extended :
    (re : Engine) (c : Call) (r : Router)
    → Extended
        (binding re c)
        r.first_handler_node
        (router_after (register re c r)).first_handler_node
unfolding use_handlers use_open use_close
register-Extended re (bind_call is_public path args) r = bind-Extended re is_public path args r
register-Extended re (use_call (path_argument path ∷ args)) r =
    bind-Extended re false (mount_path_of path) args r
register-Extended re (use_call []) r = bind-Extended re false (codes "/**") [] r
register-Extended re (use_call (x ∷ args)) r = bind-Extended re false (codes "/**") (x ∷ args) r
register-Extended re (use_open_call args) r = ground arith
register-Extended re (use_close_call args) r = ground arith

module _ (re : Engine) (path : Text) where
  served-node :
      (a : ℕ) (p : Pattern) (hs : Handlers) (n : Node) (rest : MessageParams → List Served)
      (params : MessageParams)
      → ((ps : MessageParams) → served_of (candidates re path n ps) ≡ rest ps)
      → served_of (candidates re path (node a normal_bind_type (some p) hs n) params)
        ≡ at_match hs rest params (match_into re p path params)
  unfolding candidates try_match
  served-node a p hs n rest params ih = elim (Matching-cases (match_into re p path params)) [
    | inl missed ↦ rw (missed, candidates) (ih params)
    | inr (inl bad) ↦ rw (bad, candidates) refl
    | inr (inr (params', hit)) ↦
        rw (hit, candidates)
          (served_of-append (all_from (node a normal_bind_type (some p) hs n) 0 hs params') _
            ∙ ap (λ xs. xs ++ served_of (candidates re path n params'))
                (served_of-all_from (node a normal_bind_type (some p) hs n) 0 hs params')
            ∙ ap (◌++◌ (handlers_from 0 hs params')) (ih params'))
  ]

  -- The nodes that the registrations add, and what is served by them.
  unfoldable pub Adds : List Call → Node → Node → Type 0
  Adds cs old new =
      (n : Node) × (new ≡ append_node old n)
      × ((params : MessageParams)
          → served_of (candidates re path n params) ≡ served re path cs params)

  Adds-cons :
      (cs : List Call) (b : Option (Pattern × Handlers)) (old middle new : Node)
      → Extended b old middle
      → Adds cs middle new
      → (n : Node) × (new ≡ append_node old n)
        × ((params : MessageParams)
            → served_of (candidates re path n params)
              ≡ at_binding re path b (served re path cs) params)
  unfolding Adds append_node
  Adds-cons cs none old middle new same (n, is, serves) =
      (n, rw is (ap (λ k. append_node k n) same), serves)
  Adds-cons cs (some (p, hs)) old middle new (a, same) (n, is, serves) = (
    node a normal_bind_type (some p) hs n,
    is ∙ ap (λ k. append_node k n) same ∙ append_node_assoc old _ n,
    λ params. served-node a p hs n (served re path cs) params serves,
  )

  pub register_all-Adds :
      (cs : List Call) (r : Router)
      → Adds cs r.first_handler_node (register_all re cs r).first_handler_node
  unfolding Adds candidates
  register_all-Adds [] r = (nil, sym (append_node-nil r.first_handler_node), λ params. refl)
  register_all-Adds (c ∷ cs) r =
      Adds-cons cs (binding re c) r.first_handler_node _ _ (register-Extended re c r)
        (register_all-Adds cs (router_after (register re c r)))

-- A router is a list of registrations: whatever was called on a new router, the handlers that `Next`
-- reaches for a path are those of the calls of `Bind`, `PublicBind` and `Use` that do not panic and
-- whose pattern matches the path, in the order of the calls and of their arguments, each with the
-- parameters that its pattern's match leaves; behind a pattern whose match panics, none.
pub register_all-served :
    (re : Engine) (calls : List Call) (base : ℕ) (path : Text)
    → served_of (candidates re path (register_all re calls (new_router base)).first_handler_node [])
      ≡ served re path calls []
unfolding Adds append_node
register_all-served re calls base path =
    let (n, is, serves) = register_all-Adds re path calls (new_router base) in rw is (serves [])
