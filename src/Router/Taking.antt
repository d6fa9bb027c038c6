-- ===== src/Router/Taking.antt =====
-- router.go: the registrations that are meant to be taken.
use velaros.Base.{
  Bool, true, false, not, ◌&&◌, Option, none, some, List, [], ◌∷◌, ◌++◌, Text, codes,
}
use velaros.Pattern.Defs.{Engine}
use velaros.Pattern.Compile.{NewPattern, new_pattern, string}
use velaros.Pattern.Compile
use velaros.Context.Defs.{
  Handler, func, object, router, other, Handlers, no_handlers, handler, RouteDescriptor,
  normal_bind_type,
}
use velaros.Router.Defs.{
  Argument, path_argument, metadata_option, Registration, done, panicked, handler_argument,
}
use velaros.Router.Ops.{valid_handlers, trim_suffix}

abbrev pub returns : Registration → Bool
returns (done r) = true
returns (panicked why r) = false

abbrev pub is_ok : NewPattern → Bool
is_ok (Compile.ok p) = true
is_ok _ = false

-- Every public route of a router that is mounted has a path that compiles there.
abbrev pub mounts : Engine → Text → List RouteDescriptor → Bool
mounts re mount_path [] = true
mounts re mount_path (d ∷ ds) =
    let rest = mounts re mount_path ds in
    is_ok (new_pattern re (mount_path ++ string d.pattern)) && rest

abbrev pub takes : Engine → Bool → Text → Handler → Bool
takes re is_public path (router _ _ _ _ ds) =
    not is_public && mounts re (trim_suffix path (codes "/**")) ds
takes re is_public path _ = true

abbrev pub takes_all : Engine → Bool → Text → Handlers → Bool
takes_all re is_public path no_handlers = true
takes_all re is_public path (handler h hs) =
    let rest = takes_all re is_public path hs in takes re is_public path h && rest

abbrev pub takes_valid : Engine → Bool → Text → Option Handlers → Bool
takes_valid re is_public path none = false
takes_valid re is_public path (some hs) =
    is_ok (new_pattern re path) && takes_all re is_public path hs

abbrev pub takes_some : Engine → Bool → Text → List Argument → Bool
takes_some re is_public path [] = false
takes_some re is_public path (x ∷ xs) =
    takes_valid re is_public path (valid_handlers normal_bind_type (x ∷ xs))

-- A handler that messages can be given to: a function, a value with the method `Handle`, or a router.
abbrev pub is_message_handler : Handler → Bool
is_message_handler (func _ _) = true
is_message_handler (object _ (some _) _ _) = true
is_message_handler (object _ none _ _) = false
is_message_handler (router _ _ _ _ _) = true
is_message_handler (other _) = false

-- There is an argument that is not an option.
abbrev pub has_handler : List Argument → Bool
has_handler [] = false
has_handler (metadata_option _ ∷ args) = has_handler args
has_handler (path_argument _ ∷ args) = true
has_handler (handler_argument _ ∷ args) = true

-- Every argument is an option or a handler that is taken.
abbrev pub all_taken : Engine → Bool → Text → List Argument → Bool
all_taken re is_public path [] = true
all_taken re is_public path (metadata_option _ ∷ args) = all_taken re is_public path args
all_taken re is_public path (path_argument _ ∷ args) = false
all_taken re is_public path (handler_argument h ∷ args) =
    let rest = all_taken re is_public path args in
    is_message_handler h && (takes re is_public path h && rest)

-- There are handlers, all of types that messages can be given to; the path compiles; and a router
-- among the handlers is not bound publicly, and its public routes compile where it is mounted.
abbrev pub accepts : Engine → Bool → Text → List Argument → Bool
accepts re is_public path args =
    has_handler args && (is_ok (new_pattern re path) && all_taken re is_public path args)
