-- ===== src/Router/Descriptors.antt =====
-- router.go: the list and the map of a router's descriptors.
use velaros.Base.{
  ℕ, ◌≡◌, refl, sym, ap, ◌∙◌, Bool, true, false, ◌||◌, Option, none, some, List, [], ◌∷◌, ◌++◌,
  Text, text_eq, text_eq_iff, arith, Option-cases, inl, inr,
}
use velaros.Base.Maps.{lookup, lookup-insert}
use velaros.Pattern.Defs.{Pattern, Engine}
use velaros.Pattern.Compile.{new_pattern, string}
use velaros.Socket.Defs.{Value}
use velaros.Context.Defs.{Handlers, RouteDescriptor, open_bind_type, close_bind_type}
use velaros.Context.Next.{is_some}
use velaros.Router.Calls.{
  Call, bind_call, use_call, use_open_call, use_close_call, router_after, register, register_all,
}
use velaros.Router.Preserve.{
  OnRouter, IsKept, OnRouter-bind, OnRouter-with_pattern, OnRouter-bind_handlers,
  public_descriptor-IsKept,
}
use velaros.Router.Defs.{new_router, path_argument, Router, Argument, Registration, done, panicked}
use velaros.Router.Ops.{
  valid_handlers, use_open, use_close, add_route_descriptor, append_normal, metadata_of,
  without_options, bind_valid, bind_filtered, bind, use_handlers,
}

abbrev pub occurs : Text → List RouteDescriptor → Bool
occurs k [] = false
occurs k (d ∷ ds) = text_eq (string d.pattern) k || occurs k ds

abbrev pub Distinct : List RouteDescriptor → Type 0
Distinct [] = Unit
Distinct (d ∷ ds) = (occurs (string d.pattern) ds ≡ false) × Distinct ds

-- No two descriptors have the same path, and the map holds the paths of the list and no other.
pub record Listed (r : Router) : Type 0 where
  pub distinct : Distinct r.route_descriptors
  pub mapped : (k : Text) → is_some (lookup k r.route_descriptor_map) ≡ occurs k r.route_descriptors

occurs-append :
    (k : Text) (ds : List RouteDescriptor) (d : RouteDescriptor)
    → occurs k (ds ++ (d ∷ [])) ≡ (occurs k ds || text_eq (string d.pattern) k)
occurs-append k [] d = ground arith
occurs-append k (e ∷ ds) d = ground (arith, occurs-append k ds d)

Distinct-append :
    (ds : List RouteDescriptor) (d : RouteDescriptor)
    → Distinct ds
    → occurs (string d.pattern) ds ≡ false
    → Distinct (ds ++ (d ∷ []))
Distinct-append [] d distinct new = (refl, tt)
Distinct-append (e ∷ ds) d (e_new, distinct) new = (
  ground (
    arith,
    occurs-append (string e.pattern) ds d,
    text_eq_iff (string d.pattern) (string e.pattern),
    text_eq_iff (string e.pattern) (string d.pattern),
  ),
  Distinct-append ds d distinct (ground arith),
)

add_route_descriptor-Listed :
    (p : Pattern) (metadata : Option Value) (r : Router)
    → Listed r
    → Listed (add_route_descriptor p metadata r)
unfolding add_route_descriptor
add_route_descriptor-Listed p metadata r listed =
    elim (Option-cases (lookup (string p) r.route_descriptor_map)) [
      | inr (b, known) ↦ rw known listed
      | inl new ↦ rw new (record {
        distinct =
            Distinct-append r.route_descriptors _ listed.distinct
              (sym (listed.mapped (string p)) ∙ ap is_some new);
        mapped = λ k. ground (
          arith,
          lookup-insert (string p) k true r.route_descriptor_map,
          occurs-append k r.route_descriptors (record { pattern = p; metadata = metadata }),
          listed.mapped k,
        );
      })
    ]

use_open-Listed : (args : List Argument) (r : Router) → Listed r → OnRouter Listed (use_open args r)
unfolding use_open
use_open-Listed [] r listed = listed
use_open-Listed (x ∷ xs) r listed = elim (Option-cases (valid_handlers open_bind_type (x ∷ xs))) [
  | inl e ↦ rw (e) listed
  | inr (hs, e) ↦ rw (e) (record { distinct = listed.distinct; mapped = listed.mapped })
]

use_close-Listed :
    (args : List Argument) (r : Router) → Listed r → OnRouter Listed (use_close args r)
unfolding use_close
use_close-Listed [] r listed = listed
use_close-Listed (x ∷ xs) r listed = elim (Option-cases (valid_handlers close_bind_type (x ∷ xs))) [
  | inl e ↦ rw (e) listed
  | inr (hs, e) ↦ rw (e) (record { distinct = listed.distinct; mapped = listed.mapped })
]

Listed-IsKept : IsKept Listed
Listed-IsKept = record {
  descriptor = add_route_descriptor-Listed;
  opens = use_open-Listed;
  closes = use_close-Listed;
}

append_normal-Listed :
    (p : Pattern) (hs : Handlers) (r : Router) → Listed r → OnRouter Listed (append_normal p hs r)
append_normal-Listed p hs r listed = record { distinct = listed.distinct; mapped = listed.mapped }

module _ (re : Engine) where
  bind_valid-Listed :
      (is_public : Bool) (path : Text) (metadata : Option Value) (hs : Option Handlers) (r : Router)
      → Listed r
      → OnRouter Listed (bind_valid re is_public path metadata hs r)
  bind_valid-Listed is_public path metadata none r listed = listed
  bind_valid-Listed is_public path metadata (some hs) r listed =
      OnRouter-with_pattern Listed path (new_pattern re path) r _ listed (λ p.
        OnRouter-bind Listed _ (append_normal p hs)
          (OnRouter-bind_handlers Listed Listed-IsKept re is_public path hs _
            (public_descriptor-IsKept Listed Listed-IsKept re is_public p metadata r listed))
          (append_normal-Listed p hs))

  bind_filtered-Listed :
      (is_public : Bool) (path : Text) (metadata : Option Value) (args : List Argument) (r : Router)
      → Listed r
      → OnRouter Listed (bind_filtered re is_public path metadata args r)
  bind_filtered-Listed is_public path metadata [] r listed = listed
  bind_filtered-Listed is_public path metadata (x ∷ xs) r listed =
      bind_valid-Listed is_public path metadata _ r listed

  bind-Listed :
      (is_public : Bool) (path : Text) (args : List Argument) (r : Router)
      → Listed r
      → OnRouter Listed (bind re is_public path args r)
  unfolding bind
  bind-Listed is_public path args r listed =
      bind_filtered-Listed is_public path (metadata_of none args) (without_options args) r listed

  use_handlers-Listed :
      (args : List Argument) (r : Router) → Listed r → OnRouter Listed (use_handlers re args r)
  unfolding use_handlers
  use_handlers-Listed (path_argument path ∷ args) r listed = bind-Listed false _ args r listed
  use_handlers-Listed [] r listed = bind-Listed false _ [] r listed
  use_handlers-Listed (x ∷ args) r listed = bind-Listed false _ (x ∷ args) r listed

  -- Any sequence of registrations, returning or panicking ones, of a new router leads to a list of
  -- descriptors in which no two have the same path, and to a map that holds the paths of that list
  -- and no other.
  pub register_all-Listed :
      (calls : List Call) (base : ℕ) → Listed (register_all re calls (new_router base))
  unfolding lookup
  register_all-Listed calls base =
      kept calls (new_router base) (record { distinct = tt; mapped = λ k. refl })
    where
      registered : (x : Registration) → OnRouter Listed x → Listed (router_after x)
      registered (done r) listed = listed
      registered (panicked why r) listed = listed

      each : (c : Call) (r : Router) → Listed r → Listed (router_after (register re c r))
      each (bind_call is_public path args) r listed =
          registered _ (bind-Listed is_public path args r listed)
      each (use_call args) r listed = registered _ (use_handlers-Listed args r listed)
      each (use_open_call args) r listed = registered _ (use_open-Listed args r listed)
      each (use_close_call args) r listed = registered _ (use_close-Listed args r listed)

      kept : (cs : List Call) (r : Router) → Listed r → Listed (register_all re cs r)
      kept [] r listed = listed
      kept (c ∷ cs) r listed = kept cs (router_after (register re c r)) (each c r listed)
