-- ===== src/Router/Ops.antt =====
-- router.go: `Use`, `UseOpen`, `UseClose`, `Bind`, `PublicBind`, `addRouteDescriptor`, `Lookup`.
use velaros.Base.{
  ℕ, ◌+◌, ◌-◌, Bool, true, false, ◌&&◌, Option, none, some, List, [], ◌∷◌, ◌++◌, Text, codes, ◌==◌,
  leb, text_eq, if◌then◌else◌, length, take, drop,
}
use velaros.Base.Maps.{lookup, insert}
use velaros.Pattern.Defs.{Pattern, Engine}
use velaros.Pattern.Compile.{NewPattern, new_pattern, string}
use velaros.Pattern.Compile
use velaros.Socket.Defs.{Value}
use velaros.Context.Defs.{
  Handler, func, object, router, other, Handlers, no_handlers, handler, Node, nil, node, BindType,
  normal_bind_type, open_bind_type, close_bind_type, RouteDescriptor,
}
use velaros.Router.Defs.{
  Router, Argument, path_argument, metadata_option, handler_argument, no_handlers_provided,
  invalid_handler_type, public_bind_of_router, invalid_route_pattern, Registration, done, panicked,
  ◌>>=◌,
}

-- `strings.HasSuffix` and `strings.TrimSuffix`
abbrev pub has_suffix : Text → Text → Bool
has_suffix s suffix =
    leb (length suffix) (length s) && text_eq (drop (length s - length suffix) s) suffix

abbrev pub trim_suffix : Text → Text → Text
trim_suffix s suffix = if has_suffix s suffix then take (length s - length suffix) s else s

-- `handler.(OpenHandler)` and `handler.(CloseHandler)`
abbrev pub has_open : Handler → Bool
has_open (object _ _ (some _) _) = true
has_open (router _ _ _ _ _) = true
has_open _ = false

abbrev pub has_close : Handler → Bool
has_close (object _ _ _ (some _)) = true
has_close (router _ _ _ _ _) = true
has_close _ = false

-- Whether a chain of the bind type takes the handler.
abbrev pub is_valid : BindType → Handler → Bool
is_valid b (func _ _) = true
is_valid b (other _) = false
is_valid normal_bind_type (object _ (some _) _ _) = true
is_valid normal_bind_type (object _ none _ _) = false
is_valid normal_bind_type (router _ _ _ _ _) = true
is_valid open_bind_type h = has_open h
is_valid close_bind_type h = has_close h

-- The loop that looks at the arguments' types, with the handlers that it went past.
unfoldable pub valid_handlers : BindType → List Argument → Option Handlers
valid_handlers b [] = some no_handlers
valid_handlers b (path_argument _ ∷ args) = none
valid_handlers b (metadata_option _ ∷ args) = none
valid_handlers b (handler_argument h ∷ args) =
    let rest = valid_handlers b args in
    if is_valid b h then elim rest [ some hs ↦ some (handler h hs) | none ↦ none ] else none

-- `last.Next = node`
unfoldable pub append_node : Node → Node → Node
append_node nil m = m
append_node (node a b p hs rest) m = node a b p hs (append_node rest m)

abbrev pub append_open : Option Handlers → Router → Registration
append_open none r = panicked invalid_handler_type r
append_open (some hs) r = done (record r {
  first_open_handler_node =
      append_node r.first_open_handler_node (node r.next_address open_bind_type none hs nil);
  next_address = r.next_address + 1;
})

-- `UseOpen`
unfoldable pub use_open : List Argument → Router → Registration
use_open [] r = panicked no_handlers_provided r
use_open (x ∷ xs) r = append_open (valid_handlers open_bind_type (x ∷ xs)) r

abbrev pub append_close : Option Handlers → Router → Registration
append_close none r = panicked invalid_handler_type r
append_close (some hs) r = done (record r {
  first_close_handler_node =
      append_node r.first_close_handler_node (node r.next_address close_bind_type none hs nil);
  next_address = r.next_address + 1;
})

-- `UseClose`
unfoldable pub use_close : List Argument → Router → Registration
use_close [] r = panicked no_handlers_provided r
use_close (x ∷ xs) r = append_close (valid_handlers close_bind_type (x ∷ xs)) r

abbrev add_new : Pattern → Option Value → Router → Option Bool → Router
add_new p metadata r (some _) = r
add_new p metadata r none = record r {
  route_descriptor_map = insert (string p) true r.route_descriptor_map;
  route_descriptors = r.route_descriptors ++ ((record { pattern = p; metadata = metadata }) ∷ []);
}

-- `addRouteDescriptor`
unfoldable pub add_route_descriptor : Pattern → Option Value → Router → Router
add_route_descriptor p metadata r = add_new p metadata r (lookup (string p) r.route_descriptor_map)

abbrev pub with_pattern : Text → NewPattern → Router → (Pattern → Registration) → Registration
with_pattern path (Compile.ok p) r f = f p
with_pattern path _ r f = panicked (invalid_route_pattern path) r

-- The loop over the descriptors of a router that is mounted.
unfoldable pub add_all : Engine → Text → List RouteDescriptor → Router → Registration
add_all re mount_path [] r = done r
add_all re mount_path (d ∷ ds) r =
    let path = mount_path ++ string d.pattern in
    with_pattern path (new_pattern re path) r
      (λ p. add_all re mount_path ds (add_route_descriptor p d.metadata r))

abbrev pub when : Bool → (Router → Registration) → Router → Registration
when b f r = if b then f r else done r

abbrev pub bind_router : Engine → Bool → Text → Handler → Router → Registration
bind_router re is_public path (router _ _ _ _ ds) r =
    if is_public
    then panicked public_bind_of_router r
    else add_all re (trim_suffix path (codes "/**")) ds r
bind_router re is_public path _ r = done r

-- One round of the loop of `bind`.
unfoldable pub bind_handler : Engine → Bool → Text → Handler → Router → Registration
bind_handler re is_public path h r =
    when (has_open h) (use_open (handler_argument h ∷ [])) r
    >>= when (has_close h) (use_close (handler_argument h ∷ []))
    >>= bind_router re is_public path h

unfoldable pub bind_handlers : Engine → Bool → Text → Handlers → Router → Registration
bind_handlers re is_public path no_handlers r = done r
bind_handlers re is_public path (handler h hs) r =
    bind_handler re is_public path h r >>= bind_handlers re is_public path hs

abbrev pub append_normal : Pattern → Handlers → Router → Registration
append_normal p hs r = done (record r {
  first_handler_node =
      append_node r.first_handler_node (node r.next_address normal_bind_type (some p) hs nil);
  next_address = r.next_address + 1;
})

-- The options are taken out of the arguments; the last one counts.
unfoldable pub metadata_of : Option Value → List Argument → Option Value
metadata_of v [] = v
metadata_of v (metadata_option v' ∷ args) = metadata_of v' args
metadata_of v (_ ∷ args) = metadata_of v args

unfoldable pub without_options : List Argument → List Argument
without_options [] = []
without_options (metadata_option _ ∷ args) = without_options args
without_options (x ∷ args) = x ∷ without_options args

abbrev pub public_descriptor : Bool → Pattern → Option Value → Router → Router
public_descriptor is_public p metadata r =
    if is_public then add_route_descriptor p metadata r else r

abbrev pub bind_valid :
    Engine → Bool → Text → Option Value → Option Handlers → Router → Registration
bind_valid re is_public path metadata none r = panicked invalid_handler_type r
bind_valid re is_public path metadata (some hs) r = with_pattern path (new_pattern re path) r (λ p.
    bind_handlers re is_public path hs (public_descriptor is_public p metadata r)
    >>= append_normal p hs)

abbrev pub bind_filtered :
    Engine → Bool → Text → Option Value → List Argument → Router → Registration
bind_filtered re is_public path metadata [] r = panicked no_handlers_provided r
bind_filtered re is_public path metadata (x ∷ xs) r =
    bind_valid re is_public path metadata (valid_handlers normal_bind_type (x ∷ xs)) r

-- `bind`; `Bind` and `PublicBind` are its two cases.
unfoldable pub bind : Engine → Bool → Text → List Argument → Router → Registration
bind re is_public path args r =
    bind_filtered re is_public path (metadata_of none args) (without_options args) r

abbrev pub mount_path_of : Text → Text
mount_path_of path =
    if has_suffix path (codes "/**") then path else trim_suffix path (codes "/") ++ codes "/**"

-- `Use`
unfoldable pub use_handlers : Engine → List Argument → Router → Registration
use_handlers re (path_argument path ∷ args) r = bind re false (mount_path_of path) args r
use_handlers re args r = bind re false (codes "/**") args r

-- What `Lookup` answers: a node's pattern, or nothing; or it panics at a value without a pointer.
pub data Lookup : Type 0 where
  not_found : Lookup
  found : Option Pattern → Lookup
  no_pointer : Lookup

-- `if found { return pattern, true }`
abbrev pub or_then : Lookup → Lookup → Lookup
or_then not_found rest = rest
or_then (found p) rest = found p
or_then no_pointer rest = no_pointer

-- `if reflect.ValueOf(h).Pointer() == targetPtr { return currentNode.Pattern, true }`
abbrev pub compare_pointer : ℕ → Option Pattern → Option ℕ → Lookup → Lookup
compare_pointer target p none rest = no_pointer
compare_pointer target p (some n) rest = if n == target then found p else rest

-- `Lookup`, by the pointer of the handler: a node's pattern, at the first node where the handler
-- stands or a router stands that finds it.
unfoldable mutual
  pub lookup_chain : ℕ → Node → Lookup
  lookup_chain target nil = not_found
  lookup_chain target (node a b p hs rest) =
      or_then (lookup_handlers target p hs) (lookup_chain target rest)

  pub lookup_handlers : ℕ → Option Pattern → Handlers → Lookup
  lookup_handlers target p no_handlers = not_found
  lookup_handlers target p (handler h hs) =
      or_then (lookup_handler target p h) (lookup_handlers target p hs)

  pub lookup_handler : ℕ → Option Pattern → Handler → Lookup
  lookup_handler target p (func n _) = compare_pointer target p (some n) not_found
  lookup_handler target p (object n _ _ _) = compare_pointer target p n not_found
  lookup_handler target p (other n) = compare_pointer target p n not_found
  lookup_handler target p (router n messages _ _ _) =
      let nested = lookup_chain target messages in compare_pointer target p (some n) nested

abbrev pub lookup_pointer : Option ℕ → Node → Lookup
lookup_pointer none n = no_pointer
lookup_pointer (some target) n = lookup_chain target n

-- The argument is the pointer of `handlerOrTransformer`.
unfoldable pub lookup_route : Option ℕ → Router → Lookup
lookup_route target r = lookup_pointer target r.first_handler_node
