-- ===== src/Router/Defs.antt =====
-- router.go, route_option.go: the router's state and what is registered on it.
use velaros.Base.{ℕ, Bool, Option, List, [], Text}
use velaros.Base.Maps.{TextMap}
use velaros.Socket.Defs.{Value}
use velaros.Context.Defs.{Handler, Node, nil, RouteDescriptor}

-- The fields of `Router` that registration changes. A chain is the list that starts at its first
-- node, and its last node is that list's end. `next_address` is the next node's address.
pub record Router : Type 0 where
  pub route_descriptor_map : TextMap Bool
  pub route_descriptors : List RouteDescriptor
  pub first_handler_node : Node
  pub first_open_handler_node : Node
  pub first_close_handler_node : Node
  pub next_address : ℕ

-- `NewRouter`; the router's nodes have the addresses from `base` on.
abbrev pub new_router : ℕ → Router
new_router base = record {
  route_descriptor_map = [];
  route_descriptors = [];
  first_handler_node = nil;
  first_open_handler_node = nil;
  first_close_handler_node = nil;
  next_address = base;
}

-- An argument of `Use` or `Bind`, of type `any`: a string, a `MetadataOption` with its value, or
-- any other value.
pub data Argument : Type 0 where
  path_argument : Text → Argument
  metadata_option : Option Value → Argument
  handler_argument : Handler → Argument

-- Why a registration panics.
pub data Reason : Type 0 where
  no_handlers_provided invalid_handler_type public_bind_of_router : Reason
  invalid_route_pattern : Text → Reason

-- A registration returns or panics, with the router as it is then.
pub data Registration : Type 0 where
  done : Router → Registration
  panicked : Reason → Router → Registration

infixl 5 ◌>>=◌
abbrev pub ◌>>=◌ : Registration → (Router → Registration) → Registration
done r >>= f = f r
panicked why r >>= f = panicked why r
