-- ===== src/Context/Termination/Weight.antt =====
-- How many handlers a chain has, those of mounted routers included, and how many are left.
use velaros.Base.{
  ℕ, zero, suc, ◌+◌, ◌≤◌, ◌≡◌, Bool, true, false, Option, none, some, Text, arith, inl, inr,
}
use velaros.Pattern.Defs.{Engine, Pattern}
use velaros.Pattern.Matching.{MessageParams}
use velaros.Context.Defs.{
  Handler, func, object, router, other, Handlers, no_handlers, handler, Node, nil, node, Context,
  BindType,
}
use velaros.Context.Chain.{
  past, here, Slot-cases, handler_at, Walk, ended, found, walk_panics, walk, try_match,
}
use velaros.Context.Order.{drop_handlers, Matching-cases}

unfoldable mutual
  pub weight_of : Handler → ℕ
  weight_of (func _ _) = 1
  weight_of (object _ _ _ _) = 1
  weight_of (router _ messages opens closes _) =
      suc (weight messages + (weight opens + weight closes))
  weight_of (other _) = 1

  pub weight_all : Handlers → ℕ
  weight_all no_handlers = 0
  weight_all (handler h hs) = weight_of h + weight_all hs

  pub weight : Node → ℕ
  weight nil = 0
  weight (node _ _ _ hs rest) = weight_all hs + weight rest

-- The handlers left at a node.
unfoldable pub left_at : Node → Bool → ℕ → ℕ
left_at nil matches i = 0
left_at (node _ _ _ hs rest) true i = weight_all (drop_handlers i hs) + weight rest
left_at (node _ _ _ hs rest) false i = weight_all hs + weight rest

abbrev pub left : Context → ℕ
left c = left_at c.current_handler_node c.current_handler_node_matches c.current_handler_index

weight_all-drop : (i : ℕ) (hs : Handlers) → weight_all (drop_handlers i hs) ≤ weight_all hs
unfolding weight_of
weight_all-drop zero hs = omega arith
weight_all-drop (suc i) no_handlers = omega arith
weight_all-drop (suc i) (handler h hs) = omega (arith, weight_all-drop i hs)

pub left_at-le : (n : Node) (matches : Bool) (i : ℕ) → left_at n matches i ≤ weight n
unfolding left_at weight
left_at-le nil matches i = omega arith
left_at-le (node a b p hs rest) true i = omega (arith, weight_all-drop i hs)
left_at-le (node a b p hs rest) false i = omega arith

-- A handler and what is left behind it weigh no more than what was left before it.
abbrev pub WalkWithin : ℕ → Walk → Type 0
WalkWithin l (ended _ _ _ _) = Unit
WalkWithin l (found n i h _ _) = (left_at n true (suc i) + weight_of h ≤ l) × (left_at n true i ≤ l)
WalkWithin l (walk_panics _) = Unit

handler_at-weight :
    (hs : Handlers) (i : ℕ) (h : Handler)
    → handler_at hs i ≡ some h
    → weight_all (drop_handlers (suc i) hs) + weight_of h ≡ weight_all (drop_handlers i hs)
unfolding handler_at weight_of
handler_at-weight no_handlers i h e = cc
handler_at-weight (handler k hs) zero h e = ground arith
handler_at-weight (handler k hs) (suc i) h e = handler_at-weight hs i h e

pub WalkWithin-le : (l l' : ℕ) (w : Walk) → l ≤ l' → WalkWithin l w → WalkWithin l' w
WalkWithin-le l l' (ended _ _ _ _) le h = tt
WalkWithin-le l l' (found n i k _ _) le h = omega arith
WalkWithin-le l l' (walk_panics _) le h = tt

module _ (re : Engine) (path : Text) where
  walk_here_within :
      (a : ℕ) (b : BindType) (p : Option Pattern) (hs : Handlers) (rest : Node) (i : ℕ)
      (current : Option Handler) (params : MessageParams)
      → WalkWithin (weight rest) (walk re path rest false 0 none params)
      → WalkWithin
          (weight_all (drop_handlers i hs) + weight rest)
          (walk re path (node a b p hs rest) true i current params)
  unfolding walk left_at
  walk_here_within a b p hs rest i current params later = elim (Slot-cases hs i) [
    | past e le ↦
        rw (e, walk, WalkWithin)
          (WalkWithin-le (weight rest) _ (walk re path rest false 0 none params) (omega arith)
            later)
    | here h e at lt ↦ rw (e, walk, WalkWithin) (omega (arith, handler_at-weight hs i h at))
  ]

  walk-WalkWithin_open :
      (n : Node) (i : ℕ) (current : Option Handler) (params : MessageParams)
      → WalkWithin (weight n) (walk re path n false i current params)
  unfolding walk weight
  walk-WalkWithin_open nil i current params = tt
  walk-WalkWithin_open (node a b p hs rest) i current params =
      elim (Matching-cases (try_match re path p params)) [
        | inl missed ↦
            rw (missed, walk, WalkWithin)
              (WalkWithin-le (weight rest) _ (walk re path rest false i current params)
                (omega arith) (walk-WalkWithin_open rest i current params))
        | inr (inl bad) ↦ rw (bad, walk, WalkWithin) tt
        | inr (inr (params', hit)) ↦
            rw (hit, walk, WalkWithin)
              (WalkWithin-le (weight_all (drop_handlers i hs) + weight rest) _
                (walk re path (node a b p hs rest) true i current params')
                (omega (arith, weight_all-drop i hs))
                (walk_here_within a b p hs rest i current params'
                  (walk-WalkWithin_open rest 0 none params')))
      ]

  -- What the walk finds and what it leaves were left before.
  pub walk-WalkWithin :
      (n : Node) (matches : Bool) (i : ℕ) (current : Option Handler) (params : MessageParams)
      → WalkWithin (left_at n matches i) (walk re path n matches i current params)
  unfolding walk left_at weight
  walk-WalkWithin nil matches i current params = tt
  walk-WalkWithin (node a b p hs rest) true i current params =
      walk_here_within a b p hs rest i current params (walk-WalkWithin_open rest 0 none params)
  walk-WalkWithin (node a b p hs rest) false i current params =
      walk-WalkWithin_open (node a b p hs rest) i current params
