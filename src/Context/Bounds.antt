-- ===== src/Context/Bounds.antt =====
-- context_next.go: the index into a node's handlers.
use velaros.Base.{ℕ, ◌<◌, ◌≡◌, Bool, true, false, Option, none, some, Text, inl, inr}
use velaros.Pattern.Defs.{Engine, Pattern}
use velaros.Pattern.Matching.{MessageParams}
use velaros.Context.Defs.{Handler, Handlers, no_handlers, Node, nil, node, BindType}
use velaros.Context.Chain.{
  size, past, here, Slot-cases, handler_at, try_match, Walk, ended, found, walk_panics, walk,
}
use velaros.Context.Order.{Matching-cases, try_match-ne-panics}
use velaros.Pattern.Matching.Agreement.{Documented}

abbrev pub handlers_of : Node → Handlers
handlers_of nil = no_handlers
handlers_of (node _ _ _ hs _) = hs

-- The walk does not panic, and the handler that it stops at stands in its node, at an index below
-- the number of handlers.
abbrev pub InBounds : Walk → Type 0
InBounds (found n i h current params) =
    (handler_at (handlers_of n) i ≡ some h) × (i < size (handlers_of n))
InBounds (ended _ _ _ _) = Unit
InBounds (walk_panics _) = ⊥

module _ (re : Engine) (path : Text) where
  here-InBounds :
      (a : ℕ) (b : BindType) (p : Option Pattern) (hs : Handlers) (rest : Node) (i : ℕ)
      (current : Option Handler) (params : MessageParams)
      → InBounds (walk re path rest false 0 none params)
      → InBounds (walk re path (node a b p hs rest) true i current params)
  unfolding walk
  here-InBounds a b p hs rest i current params later = elim (Slot-cases hs i) [
    | past e le ↦ rw (e, walk) later
    | here h e at lt ↦ rw (e, walk) (at, lt)
  ]

  -- From wherever the loop of Next starts, on whatever path, and with an engine that behaves as package
  -- regexp documents: the loop does not panic, neither in a match nor at an index out of range; and
  -- where it stops at a handler, the index that it reads is below the number of the node's handlers,
  -- and the handler is the one there.
  pub walk-InBounds :
      (n : Node)
      → Documented re
      → (matches : Bool) (i : ℕ) (current : Option Handler) (params : MessageParams)
      → InBounds (walk re path n matches i current params)
  unfolding walk
  walk-InBounds nil safe matches i current params = tt
  walk-InBounds (node a b p hs rest) safe true i current params =
      here-InBounds a b p hs rest i current params (walk-InBounds rest safe false 0 none params)
  walk-InBounds (node a b p hs rest) safe false i current params =
      elim (Matching-cases (try_match re path p params)) [
        | inl missed ↦ rw (missed, walk) (walk-InBounds rest safe false i current params)
        | inr (inl bad) ↦ absurd (try_match-ne-panics re path safe p params bad)
        | inr (inr (params', hit)) ↦
            rw (hit, walk)
              (here-InBounds a b p hs rest i current params'
                (walk-InBounds rest safe false 0 none params'))
      ]
