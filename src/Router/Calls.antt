-- ===== src/Router/Calls.antt =====
-- router.go: a program's registrations on one router, one after the other.
use velaros.Base.{Bool, List, [], ◌∷◌, Text}
use velaros.Pattern.Defs.{Engine}
use velaros.Router.Defs.{Router, Argument, Registration, done, panicked}
use velaros.Router.Ops.{use_open, use_close, bind, use_handlers}

-- `Bind` and `PublicBind`, `Use`, `UseOpen` and `UseClose`.
pub data Call : Type 0 where
  bind_call : Bool → Text → List Argument → Call
  use_call : List Argument → Call
  use_open_call : List Argument → Call
  use_close_call : List Argument → Call

-- The router as a call leaves it: a panic may be recovered, and what was registered stays.
abbrev pub router_after : Registration → Router
router_after (done r) = r
router_after (panicked _ r) = r

abbrev pub register : Engine → Call → Router → Registration
register re (bind_call is_public path args) r = bind re is_public path args r
register re (use_call args) r = use_handlers re args r
register re (use_open_call args) r = use_open args r
register re (use_close_call args) r = use_close args r

abbrev pub register_all : Engine → List Call → Router → Router
register_all re [] r = r
register_all re (c ∷ cs) r = register_all re cs (router_after (register re c r))
