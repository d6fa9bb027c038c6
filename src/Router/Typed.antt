-- ===== src/Router/Typed.antt =====
-- router.go and context_next.go: what the checks of registration accept, and what `Next` can run.
use velaros.Base.{
  ℕ, ◌≡◌, refl, Bool, true, false, Option, none, some, List, [], ◌∷◌, Text, codes, arith, inl, inr,
  Bool-cases, Option-cases,
}
use mathlib.Core.Path.{subst}
use velaros.Pattern.Defs.{Pattern, Engine}
use velaros.Base.Maps.{lookup}
use velaros.Pattern.Compile.{new_pattern, string}
use velaros.Socket.Defs.{Value}
use velaros.Context.Defs.{
  Environment, Handler, func, object, router, other, Handlers, no_handlers, handler, Node, nil,
  node, BindType, normal_bind_type, open_bind_type, close_bind_type, World, Outcome,
}
use velaros.Context.Next.{is_some, body_of}
use velaros.Router.Defs.{
  Router, new_router, Argument, path_argument, metadata_option, handler_argument, Registration,
  done, panicked,
}
use velaros.Router.Ops.{
  is_valid, valid_handlers, append_node, append_normal, use_open, use_close, without_options, bind,
  use_handlers, mount_path_of, add_route_descriptor, bind_filtered, bind_valid, metadata_of,
}
use velaros.Router.Preserve.{
  OnRouter, IsKept, OnRouter-bind, OnRouter-bind_handlers, OnRouter-with_pattern,
  public_descriptor-IsKept,
}
use velaros.Router.Calls.{
  Call, bind_call, use_call, use_open_call, use_close_call, router_after, register, register_all,
}

module _ (env : Environment) (again : World → Outcome) where
  abbrev pub Runs : BindType → Handler → Type 0
  Runs b h = is_some (body_of env again b h) ≡ true

  abbrev pub RunsAll : BindType → Handlers → Type 0
  RunsAll b no_handlers = Unit
  RunsAll b (handler h hs) = Runs b h × RunsAll b hs

  -- Nodes of one bind type, with handlers that `Next` can run there.
  abbrev pub Typed : BindType → Node → Type 0
  Typed b nil = Unit
  Typed b (node a b' p hs rest) = (b' ≡ b) × RunsAll b hs × Typed b rest

  is_valid-Runs : (b : BindType) (h : Handler) → is_valid b h ≡ true → Runs b h
  is_valid-Runs normal_bind_type (func _ _) e = refl
  is_valid-Runs open_bind_type (func _ _) e = refl
  is_valid-Runs close_bind_type (func _ _) e = refl
  is_valid-Runs normal_bind_type (object _ (some _) _ _) e = refl
  is_valid-Runs normal_bind_type (object _ none _ _) e = absurd cc
  is_valid-Runs open_bind_type (object _ _ (some _) _) e = refl
  is_valid-Runs open_bind_type (object _ _ none _) e = absurd cc
  is_valid-Runs close_bind_type (object _ _ _ (some _)) e = refl
  is_valid-Runs close_bind_type (object _ _ _ none) e = absurd cc
  is_valid-Runs normal_bind_type (router _ _ _ _ _) e = refl
  is_valid-Runs open_bind_type (router _ _ _ _ _) e = refl
  is_valid-Runs close_bind_type (router _ _ _ _ _) e = refl
  is_valid-Runs normal_bind_type (other _) e = absurd cc
  is_valid-Runs open_bind_type (other _) e = absurd cc
  is_valid-Runs close_bind_type (other _) e = absurd cc

  valid_handlers-RunsAll :
      (b : BindType) (args : List Argument) (hs : Handlers)
      → valid_handlers b args ≡ some hs
      → RunsAll b hs
  unfolding valid_handlers
  valid_handlers-RunsAll b [] hs e = let same : no_handlers ≡ hs = cc in subst (RunsAll b) same tt
  valid_handlers-RunsAll b (path_argument _ ∷ args) hs e = absurd cc
  valid_handlers-RunsAll b (metadata_option _ ∷ args) hs e = absurd cc
  valid_handlers-RunsAll b (handler_argument h ∷ args) hs e = elim (Bool-cases (is_valid b h)) [
    | inl good ↦ elim (Option-cases (valid_handlers b args)) [
      | inl bad ↦ absurd (ground arith)
      | inr (hs', rest) ↦
          let same : handler h hs' ≡ hs = ground arith in
          subst (RunsAll b) same (is_valid-Runs b h good, valid_handlers-RunsAll b args hs' rest)
    ]
    | inr bad ↦ absurd (ground arith)
  ]

  append_node-Typed :
      (b : BindType) (n m : Node) → Typed b n → Typed b m → Typed b (append_node n m)
  unfolding append_node
  append_node-Typed b nil m h h' = h'
  append_node-Typed b (node a b' p hs rest) m (same, runs, h) h' =
      (same, runs, append_node-Typed b rest m h h')

  -- The three chains of a router.
  abbrev pub TypedRouter : Router → Type 0
  TypedRouter r =
      Typed normal_bind_type r.first_handler_node
      × Typed open_bind_type r.first_open_handler_node
      × Typed close_bind_type r.first_close_handler_node

  opens-Typed :
      (args : List Argument) (r : Router) → TypedRouter r → OnRouter TypedRouter (use_open args r)
  unfolding use_open
  opens-Typed [] r h = h
  opens-Typed (x ∷ xs) r (normals, opens, closes) =
      elim (Option-cases (valid_handlers open_bind_type (x ∷ xs))) [
        | inl bad ↦ rw bad (normals, opens, closes)
        | inr (hs, good) ↦ rw good (
          normals,
          append_node-Typed open_bind_type r.first_open_handler_node _ opens
              (refl, valid_handlers-RunsAll open_bind_type (x ∷ xs) hs good, tt),
          closes,
        )
      ]

  closes-Typed :
      (args : List Argument) (r : Router) → TypedRouter r → OnRouter TypedRouter (use_close args r)
  unfolding use_close
  closes-Typed [] r h = h
  closes-Typed (x ∷ xs) r (normals, opens, closes) =
      elim (Option-cases (valid_handlers close_bind_type (x ∷ xs))) [
        | inl bad ↦ rw bad (normals, opens, closes)
        | inr (hs, good) ↦ rw good (
          normals,
          opens,
          append_node-Typed close_bind_type r.first_close_handler_node _ closes
              (refl, valid_handlers-RunsAll close_bind_type (x ∷ xs) hs good, tt),
        )
      ]

  descriptor-Typed :
      (p : Pattern) (metadata : Option Value) (r : Router)
      → TypedRouter r
      → TypedRouter (add_route_descriptor p metadata r)
  unfolding add_route_descriptor
  descriptor-Typed p metadata r h = elim (Option-cases (lookup (string p) r.route_descriptor_map)) [
    | inl new ↦ rw new h
    | inr (b, listed) ↦ rw listed h
  ]

  Typed-IsKept : IsKept TypedRouter
  Typed-IsKept = record {
    descriptor = descriptor-Typed;
    opens = opens-Typed;
    closes = closes-Typed;
  }

  append_normal-Typed :
      (p : Pattern) (hs : Handlers) (r : Router)
      → RunsAll normal_bind_type hs
      → TypedRouter r
      → OnRouter TypedRouter (append_normal p hs r)
  append_normal-Typed p hs r runs (normals, opens, closes) = (
    append_node-Typed normal_bind_type r.first_handler_node _ normals (refl, runs, tt),
    opens,
    closes,
  )

  bind_valid-Typed :
      (re : Engine) (is_public : Bool) (path : Text) (metadata : Option Value)
      (args : List Argument) (hs : Option Handlers) (r : Router)
      → valid_handlers normal_bind_type args ≡ hs
      → TypedRouter r
      → OnRouter TypedRouter (bind_valid re is_public path metadata hs r)
  bind_valid-Typed re is_public path metadata args none r valid h = h
  bind_valid-Typed re is_public path metadata args (some hs) r valid h =
      OnRouter-with_pattern TypedRouter path (new_pattern re path) r _ h (λ p.
        OnRouter-bind TypedRouter _ _
          (OnRouter-bind_handlers TypedRouter Typed-IsKept re is_public path hs _
            (public_descriptor-IsKept TypedRouter Typed-IsKept re is_public p metadata r h))
          (λ r' h'.
            append_normal-Typed p hs r' (valid_handlers-RunsAll normal_bind_type args hs valid) h'))

  bind-Typed :
      (re : Engine) (is_public : Bool) (path : Text) (args : List Argument) (r : Router)
      → TypedRouter r
      → OnRouter TypedRouter (bind re is_public path args r)
  unfolding bind
  bind-Typed re is_public path args r h = filtered (without_options args)
    where
      filtered :
          (rest : List Argument)
          → OnRouter TypedRouter (bind_filtered re is_public path (metadata_of none args) rest r)
      filtered [] = h
      filtered (x ∷ xs) =
          bind_valid-Typed re is_public path _ (x ∷ xs) (valid_handlers normal_bind_type (x ∷ xs)) r
            refl h

  use_handlers-Typed :
      (re : Engine) (args : List Argument) (r : Router)
      → TypedRouter r
      → OnRouter TypedRouter (use_handlers re args r)
  unfolding use_handlers
  use_handlers-Typed re (path_argument path ∷ args) r h =
      bind-Typed re false (mount_path_of path) args r h
  use_handlers-Typed re [] r h = bind-Typed re false (codes "/**") [] r h
  use_handlers-Typed re (x ∷ args) r h = bind-Typed re false (codes "/**") (x ∷ args) r h

  register-Typed :
      (re : Engine) (c : Call) (r : Router) → TypedRouter r → OnRouter TypedRouter (register re c r)
  register-Typed re (bind_call is_public path args) r h = bind-Typed re is_public path args r h
  register-Typed re (use_call args) r h = use_handlers-Typed re args r h
  register-Typed re (use_open_call args) r h = opens-Typed args r h
  register-Typed re (use_close_call args) r h = closes-Typed args r h

  after-Typed : (x : Registration) → OnRouter TypedRouter x → TypedRouter (router_after x)
  after-Typed (done r) h = h
  after-Typed (panicked why r) h = h

  registered-Typed :
      (re : Engine) (calls : List Call) (r : Router)
      → TypedRouter r
      → TypedRouter (register_all re calls r)
  registered-Typed re [] r h = h
  registered-Typed re (c ∷ cs) r h =
      registered-Typed re cs _ (after-Typed (register re c r) (register-Typed re c r h))

-- What registration accepts, Next can run: after any sequence of registrations on a new router,
-- returning or panicking ones, each of the router's three chains has only nodes of its own bind type,
-- and only handlers for which Next has a body to call there, so it never meets an unknown type.
pub register_all-Typed :
    (env : Environment) (again : World → Outcome) (calls : List Call) (base : ℕ)
    → TypedRouter env again (register_all env.engine calls (new_router base))
register_all-Typed env again calls base =
    registered-Typed env again env.engine calls (new_router base) (tt, tt, tt)
