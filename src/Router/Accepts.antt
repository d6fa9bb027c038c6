-- ===== src/Router/Accepts.antt =====
-- router.go: which registrations are taken, and which panic.
use velaros.Base.{
  if◌then◌else◌, ◌≡◌, refl, ap, ◌∙◌, Bool, true, false, ◌&&◌, Option, none, some, List, [], ◌∷◌,
  ◌++◌, Text, codes, arith, inl, inr, Bool-cases,
}
use velaros.Pattern.Defs.{Pattern, Engine}
use velaros.Pattern.Compile.{NewPattern, new_pattern, string}
use velaros.Pattern.Compile
use velaros.Socket.Defs.{Value}
use velaros.Context.Defs.{
  Handler, func, object, router, other, Handlers, no_handlers, handler, RouteDescriptor,
  normal_bind_type,
}
use velaros.Router.Defs.{
  Router, Argument, path_argument, metadata_option, Registration, done, panicked, ◌>>=◌,
  handler_argument,
}
use velaros.Router.Ops.{
  is_valid, has_open, has_close, valid_handlers, use_open, use_close, with_pattern, add_all, when,
  trim_suffix, bind_router, bind_handler, bind_handlers, public_descriptor, append_normal,
  metadata_of, without_options, bind_valid, bind_filtered, bind,
}
use velaros.Router.Taking.{
  returns, is_ok, mounts, takes, takes_all, takes_valid, takes_some, is_message_handler, all_taken,
  accepts,
}

returns_sequence :
    (b : Bool) (x : Registration) (f : Router → Registration)
    → ((r : Router) → returns (f r) ≡ b)
    → returns (x >>= f) ≡ (returns x && b)
returns_sequence b (done r) f h = h r
returns_sequence b (panicked why r) f h = refl

returns-with_pattern :
    (b : Bool) (path : Text) (n : NewPattern) (r : Router) (f : Pattern → Registration)
    → ((p : Pattern) → returns (f p) ≡ b)
    → returns (with_pattern path n r f) ≡ (is_ok n && b)
returns-with_pattern b path (Compile.ok p) r f h = h p
returns-with_pattern b path (Compile.bad_chunks e) r f h = refl
returns-with_pattern b path (Compile.bad_reg_exp e) r f h = refl
returns-with_pattern b path Compile.out_of_fuel r f h = refl

-- A handler that has an open or a close method is taken by the chain for it.
opens_returns :
    (h : Handler) (r : Router)
    → returns (when (has_open h) (use_open (handler_argument h ∷ [])) r) ≡ true
unfolding use_open valid_handlers
opens_returns (func n s) r = refl
opens_returns (object n m (some s) c) r = refl
opens_returns (object n m none c) r = refl
opens_returns (router n ms os cs ds) r = refl
opens_returns (other n) r = refl

closes_returns :
    (h : Handler) (r : Router)
    → returns (when (has_close h) (use_close (handler_argument h ∷ [])) r) ≡ true
unfolding use_close valid_handlers
closes_returns (func n s) r = refl
closes_returns (object n m o (some s)) r = refl
closes_returns (object n m o none) r = refl
closes_returns (router n ms os cs ds) r = refl
closes_returns (other n) r = refl

and_true : (b : Bool) → (b && true) ≡ b
and_true true = refl
and_true false = refl

module _ (re : Engine) (is_public : Bool) (path : Text) where
  returns-add_all :
      (mount_path : Text) (ds : List RouteDescriptor) (r : Router)
      → returns (add_all re mount_path ds r) ≡ mounts re mount_path ds
  unfolding add_all
  returns-add_all mount_path [] r = refl
  returns-add_all mount_path (d ∷ ds) r =
      returns-with_pattern (mounts re mount_path ds) _
        (new_pattern re (mount_path ++ string d.pattern)) r _ (λ p. returns-add_all mount_path ds _)

  returns-bind_router :
      (h : Handler) (r : Router)
      → returns (bind_router re is_public path h r) ≡ takes re is_public path h
  returns-bind_router (func n s) r = refl
  returns-bind_router (object n m o c) r = refl
  returns-bind_router (other n) r = refl
  returns-bind_router (router n ms os cs ds) r = elim (Bool-cases is_public) [
    | inl open_to_all ↦ rw open_to_all refl
    | inr own ↦ rw own (returns-add_all (trim_suffix path (codes "/**")) ds r)
  ]

  returns-bind_handler :
      (h : Handler) (r : Router)
      → returns (bind_handler re is_public path h r) ≡ takes re is_public path h
  unfolding bind_handler
  returns-bind_handler h r =
      returns_sequence (takes re is_public path h)
        (when (has_open h) (use_open (handler_argument h ∷ [])) r
          >>= when (has_close h) (use_close (handler_argument h ∷ [])))
        (bind_router re is_public path h) (returns-bind_router h)
      ∙ ap (λ b. b && takes re is_public path h)
          (returns_sequence true (when (has_open h) (use_open (handler_argument h ∷ [])) r)
              (when (has_close h) (use_close (handler_argument h ∷ []))) (closes_returns h)
            ∙ ap (λ b. b && true) (opens_returns h r))

  returns-bind_handlers :
      (hs : Handlers) (r : Router)
      → returns (bind_handlers re is_public path hs r) ≡ takes_all re is_public path hs
  unfolding bind_handlers
  returns-bind_handlers no_handlers r = refl
  returns-bind_handlers (handler h hs) r =
      returns_sequence (takes_all re is_public path hs) (bind_handler re is_public path h r) _
        (returns-bind_handlers hs)
      ∙ ap (λ b. b && takes_all re is_public path hs) (returns-bind_handler h r)

  returns-bind_valid :
      (metadata : Option Value) (o : Option Handlers) (r : Router)
      → returns (bind_valid re is_public path metadata o r) ≡ takes_valid re is_public path o
  returns-bind_valid metadata none r = refl
  returns-bind_valid metadata (some hs) r =
      returns-with_pattern (takes_all re is_public path hs) path (new_pattern re path) r _ (λ p.
        returns_sequence true
          (bind_handlers re is_public path hs (public_descriptor is_public p metadata r))
          (append_normal p hs) (λ r'. refl)
        ∙ and_true _
        ∙ returns-bind_handlers hs (public_descriptor is_public p metadata r))

  returns-bind_filtered :
      (metadata : Option Value) (args : List Argument) (r : Router)
      → returns (bind_filtered re is_public path metadata args r)
        ≡ takes_some re is_public path args
  returns-bind_filtered metadata [] r = refl
  returns-bind_filtered metadata (x ∷ xs) r = returns-bind_valid metadata _ r

  is_valid-normal : (h : Handler) → is_valid normal_bind_type h ≡ is_message_handler h
  is_valid-normal (func _ _) = refl
  is_valid-normal (object _ (some _) _ _) = refl
  is_valid-normal (object _ none _ _) = refl
  is_valid-normal (router _ _ _ _ _) = refl
  is_valid-normal (other _) = refl

  abbrev taken_if_valid : Option Handlers → Bool
  taken_if_valid none = false
  taken_if_valid (some hs) = takes_all re is_public path hs

  valid_step :
      (h : Handler) (b : Bool) (o : Option Handlers)
      → taken_if_valid (if b then elim o [ some hs ↦ some (handler h hs) | none ↦ none ] else none)
        ≡ b && (takes re is_public path h && taken_if_valid o)
  valid_step h true (some hs) = refl
  valid_step h true none = ground arith
  valid_step h false o = refl

  valid-all_taken :
      (args : List Argument)
      → taken_if_valid (valid_handlers normal_bind_type (without_options args))
        ≡ all_taken re is_public path args
  unfolding valid_handlers without_options
  valid-all_taken [] = refl
  valid-all_taken (metadata_option v ∷ args) = valid-all_taken args
  valid-all_taken (path_argument p ∷ args) = refl
  valid-all_taken (handler_argument h ∷ args) =
      valid_step h (is_valid normal_bind_type h)
        (valid_handlers normal_bind_type (without_options args))
      ∙ ap
          (λ b.
            b
            && (takes re is_public path h
                && taken_if_valid (valid_handlers normal_bind_type (without_options args))))
          (is_valid-normal h)
      ∙ ap (λ b. is_message_handler h && (takes re is_public path h && b)) (valid-all_taken args)

  takes_valid-both :
      (o : Option Handlers)
      → takes_valid re is_public path o ≡ (is_ok (new_pattern re path) && taken_if_valid o)
  takes_valid-both none = ground arith
  takes_valid-both (some hs) = refl

  takes_some-accepts :
      (args : List Argument)
      → takes_some re is_public path (without_options args) ≡ accepts re is_public path args
  unfolding without_options
  takes_some-accepts [] = refl
  takes_some-accepts (metadata_option v ∷ args) = takes_some-accepts args
  takes_some-accepts (path_argument p ∷ args) =
      takes_valid-both (valid_handlers normal_bind_type (path_argument p ∷ without_options args))
      ∙ ap (λ b. is_ok (new_pattern re path) && b) (valid-all_taken (path_argument p ∷ args))
  takes_some-accepts (handler_argument h ∷ args) =
      takes_valid-both (valid_handlers normal_bind_type (handler_argument h ∷ without_options args))
      ∙ ap (λ b. is_ok (new_pattern re path) && b) (valid-all_taken (handler_argument h ∷ args))

  -- `Bind` and `PublicBind` return exactly if there is a handler among the arguments and all of them,
  -- the options left out, are handlers that messages can be given to, the path is a pattern that
  -- compiles, and a router among the handlers is not bound publicly and has only public routes whose
  -- paths compile where it is mounted; what was registered before makes no difference, and they panic in
  -- every other case.
  pub returns-bind :
      (args : List Argument) (r : Router)
      → returns (bind re is_public path args r) ≡ accepts re is_public path args
  unfolding bind
  returns-bind args r =
      returns-bind_filtered (metadata_of none args) (without_options args) r
      ∙ takes_some-accepts args
