-- ===== src/Router/Appending.antt =====
-- router.go: what `bind` does to the chain of message handlers.
use velaros.Base.{
  ℕ, ◌≡◌, refl, ap, Bool, Option, none, some, List, [], ◌∷◌, Text, arith, inl, inr, Option-cases,
}
use velaros.Pattern.Defs.{Pattern, Engine}
use velaros.Pattern.Compile.{NewPattern, new_pattern}
use velaros.Pattern.Compile
use velaros.Socket.Defs.{Value}
use velaros.Context.Defs.{Handlers, Node, nil, node, normal_bind_type}
use velaros.Router.Preserve.{OnRouter, IsKept, OnRouter-bind_handlers, public_descriptor-IsKept}
use velaros.Router.Defs.{Router, Argument, Registration, done, panicked, ◌>>=◌}
use velaros.Router.Ops.{
  append_node, use_open, use_close, valid_handlers, bind_handlers, with_pattern,
  add_route_descriptor, public_descriptor, append_normal, bind_filtered, metadata_of,
  without_options, bind,
}

-- A registration that panics leaves the messages' chain as it was. One that returns puts a node
-- with the path's pattern and the handlers behind it.
abbrev pub Appends : Engine → Text → List Argument → Node → Registration → Type 0
Appends re path args old (panicked why r) = r.first_handler_node ≡ old
Appends re path args old (done r) =
    (p : Pattern) × (hs : Handlers) × (a : ℕ) × (new_pattern re path ≡ Compile.ok p)
    × (valid_handlers normal_bind_type (without_options args) ≡ some hs)
    × (r.first_handler_node ≡ append_node old (node a normal_bind_type (some p) hs nil))

HasChain : Node → Router → Type 0
HasChain old r = r.first_handler_node ≡ old

module _ (old : Node) where
  HasChain-IsKept : IsKept (HasChain old)
  unfolding HasChain
  HasChain-IsKept = record { descriptor = descriptor; opens = opens; closes = closes }
    where
      descriptor :
          (p : Pattern) (metadata : Option Value) (r : Router)
          → HasChain old r
          → HasChain old (add_route_descriptor p metadata r)
      descriptor p metadata r same = unfold add_route_descriptor in ground arith

      opens :
          (args : List Argument) (r : Router)
          → HasChain old r
          → OnRouter (HasChain old) (use_open args r)
      opens args r same = unfold use_open in ground arith

      closes :
          (args : List Argument) (r : Router)
          → HasChain old r
          → OnRouter (HasChain old) (use_close args r)
      closes args r same = unfold use_close in ground arith

  bound-Appends :
      (re : Engine) (path : Text) (args : List Argument) (p : Pattern) (hs : Handlers)
      (x : Registration)
      → new_pattern re path ≡ Compile.ok p
      → valid_handlers normal_bind_type (without_options args) ≡ some hs
      → OnRouter (HasChain old) x
      → Appends re path args old (x >>= append_normal p hs)
  unfolding HasChain
  bound-Appends re path args p hs (done r) compiled valid same = (
    p,
    hs,
    r.next_address,
    compiled,
    valid,
    ap (λ (n : Node). append_node n (node r.next_address normal_bind_type (some p) hs nil)) same,
  )
  bound-Appends re path args p hs (panicked why r) compiled valid same = same

  compiled-Appends :
      (re : Engine) (is_public : Bool) (path : Text) (args : List Argument)
      (metadata : Option Value) (hs : Handlers) (n : NewPattern) (r : Router)
      → new_pattern re path ≡ n
      → valid_handlers normal_bind_type (without_options args) ≡ some hs
      → r.first_handler_node ≡ old
      → Appends re path args old (
          with_pattern path n r (λ p.
            bind_handlers re is_public path hs (public_descriptor is_public p metadata r)
            >>= append_normal p hs))
  unfolding HasChain
  compiled-Appends re is_public path args metadata hs (Compile.ok p) r compiled valid same =
      bound-Appends re path args p hs _ compiled valid (
        OnRouter-bind_handlers (HasChain old) HasChain-IsKept re is_public path hs _
          (public_descriptor-IsKept (HasChain old) HasChain-IsKept re is_public p metadata r same))
  compiled-Appends re is_public path args metadata hs (Compile.bad_chunks e) r compiled valid same =
      same
  compiled-Appends re is_public path args metadata hs (Compile.bad_reg_exp e) r compiled valid
        same =
      same
  compiled-Appends re is_public path args metadata hs Compile.out_of_fuel r compiled valid same =
      same

  filtered-Appends :
      (re : Engine) (is_public : Bool) (path : Text) (args rest : List Argument)
      (metadata : Option Value) (r : Router)
      → without_options args ≡ rest
      → r.first_handler_node ≡ old
      → Appends re path args old (bind_filtered re is_public path metadata rest r)
  filtered-Appends re is_public path args [] metadata r same_args same = same
  filtered-Appends re is_public path args (x ∷ xs) metadata r same_args same =
      elim (Option-cases (valid_handlers normal_bind_type (x ∷ xs))) [
        | inl e ↦ rw e same
        | inr (hs, e) ↦ rw e (
            compiled-Appends re is_public path args metadata hs (new_pattern re path) r refl
              (rw same_args e) same)
      ]

-- What `bind` does to the messages' chain: nothing when it panics, and when it returns, a node with
-- the compiled pattern of the path and with the handlers among the arguments, in their order, comes
-- to stand at the chain's end.
pub bind-Appends :
    (re : Engine) (is_public : Bool) (path : Text) (args : List Argument) (r : Router)
    → Appends re path args r.first_handler_node (bind re is_public path args r)
unfolding bind
bind-Appends re is_public path args r =
    filtered-Appends r.first_handler_node re is_public path args (without_options args)
      (metadata_of none args) r refl refl
