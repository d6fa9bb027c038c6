-- ===== src/Router/Preserve.antt =====
-- router.go: what `addRouteDescriptor`, `UseOpen` and `UseClose` keep, the loop of `bind` keeps.
use velaros.Base.{Bool, true, false, Option, List, [], ◌∷◌, ◌++◌, Text}
use velaros.Pattern.Defs.{Pattern, Engine}
use velaros.Pattern.Compile.{NewPattern, new_pattern, string}
use velaros.Pattern.Compile
use velaros.Socket.Defs.{Value}
use velaros.Context.Defs.{
  Handler, func, object, router, other, Handlers, no_handlers, handler, RouteDescriptor,
}
use velaros.Router.Defs.{Router, Argument, handler_argument, Registration, done, panicked, ◌>>=◌}
use velaros.Router.Ops.{
  has_open, has_close, use_open, use_close, add_route_descriptor, with_pattern, add_all, when,
  bind_router, bind_handler, bind_handlers, public_descriptor,
}

-- What holds of the router that a registration leaves, whether it returns or panics.
abbrev pub OnRouter : (Router → Type 0) → Registration → Type 0
OnRouter P (done r) = P r
OnRouter P (panicked _ r) = P r

-- The three operations that the loop of `bind` is made of keep the predicate.
pub record IsKept (P : Router → Type 0) : Type 0 where
  pub descriptor :
      (p : Pattern) (metadata : Option Value) (r : Router)
      → P r
      → P (add_route_descriptor p metadata r)
  pub opens : (args : List Argument) (r : Router) → P r → OnRouter P (use_open args r)
  pub closes : (args : List Argument) (r : Router) → P r → OnRouter P (use_close args r)

pub OnRouter-bind :
    (P : Router → Type 0) (x : Registration) (f : Router → Registration)
    → OnRouter P x
    → ((r : Router) → P r → OnRouter P (f r))
    → OnRouter P (x >>= f)
OnRouter-bind P (done r) f holds kept = kept r holds
OnRouter-bind P (panicked why r) f holds kept = holds

pub OnRouter-with_pattern :
    (P : Router → Type 0) (path : Text) (n : NewPattern) (r : Router) (f : Pattern → Registration)
    → P r
    → ((p : Pattern) → OnRouter P (f p))
    → OnRouter P (with_pattern path n r f)
OnRouter-with_pattern P path (Compile.ok p) r f holds kept = kept p
OnRouter-with_pattern P path (Compile.bad_chunks e) r f holds kept = holds
OnRouter-with_pattern P path (Compile.bad_reg_exp e) r f holds kept = holds
OnRouter-with_pattern P path Compile.out_of_fuel r f holds kept = holds

module _ (P : Router → Type 0) (kept : IsKept P) (re : Engine) where
  OnRouter-when :
      (b : Bool) (f : Router → Registration)
      → ((r : Router) → P r → OnRouter P (f r))
      → (r : Router) → P r
      → OnRouter P (when b f r)
  OnRouter-when true f keeps r holds = keeps r holds
  OnRouter-when false f keeps r holds = holds

  OnRouter-add_all :
      (mount_path : Text) (ds : List RouteDescriptor) (r : Router)
      → P r
      → OnRouter P (add_all re mount_path ds r)
  unfolding add_all
  OnRouter-add_all mount_path [] r holds = holds
  OnRouter-add_all mount_path (d ∷ ds) r holds =
      OnRouter-with_pattern P _ (new_pattern re (mount_path ++ string d.pattern)) r _ holds
        (λ p. OnRouter-add_all mount_path ds _ (kept.descriptor p d.metadata r holds))

  OnRouter-bind_router :
      (is_public : Bool) (path : Text) (h : Handler) (r : Router)
      → P r
      → OnRouter P (bind_router re is_public path h r)
  OnRouter-bind_router true path (router _ _ _ _ ds) r holds = holds
  OnRouter-bind_router false path (router _ _ _ _ ds) r holds = OnRouter-add_all _ ds r holds
  OnRouter-bind_router is_public path (func _ _) r holds = holds
  OnRouter-bind_router is_public path (object _ _ _ _) r holds = holds
  OnRouter-bind_router is_public path (other _) r holds = holds

  pub OnRouter-bind_handlers :
      (is_public : Bool) (path : Text) (hs : Handlers) (r : Router)
      → P r
      → OnRouter P (bind_handlers re is_public path hs r)
  unfolding bind_handlers bind_handler
  OnRouter-bind_handlers is_public path no_handlers r holds = holds
  OnRouter-bind_handlers is_public path (handler h hs) r holds =
      let args = handler_argument h ∷ [] in
      OnRouter-bind P _ _
        (OnRouter-bind P _ _
          (OnRouter-bind P _ _
            (OnRouter-when (has_open h) (use_open args) (kept.opens args) r holds)
            (OnRouter-when (has_close h) (use_close args) (kept.closes args)))
          (OnRouter-bind_router is_public path h))
        (OnRouter-bind_handlers is_public path hs)

  pub public_descriptor-IsKept :
      (is_public : Bool) (p : Pattern) (metadata : Option Value) (r : Router)
      → P r
      → P (public_descriptor is_public p metadata r)
  public_descriptor-IsKept true p metadata r holds = kept.descriptor p metadata r holds
  public_descriptor-IsKept false p metadata r holds = holds
