-- ===== src/Context/Chain.antt =====
-- handler_node.go and the loop of `Next` in context_next.go: the walk to the next handler.
use velaros.Base.{
  ℕ, zero, suc, Bool, true, false, Option, none, some, Text, ltb, if◌then◌else◌, ◌<◌, ◌≤◌, ◌≡◌,
  refl, arith, inl, inr, Bool-cases,
}
use velaros.Pattern.Defs.{Pattern, Engine}
use velaros.Pattern.Matching.{MessageParams, Matching, no_match, panics, matched, match_into}
use velaros.Context.Defs.{Handler, Handlers, no_handlers, handler, Node, nil, node}

-- `len(c.currentHandlerNode.Handlers)`
unfoldable pub size : Handlers → ℕ
size no_handlers = 0
size (handler h hs) = suc (size hs)

-- `c.currentHandlerNode.Handlers[i]`; none where the index is out of range and the code panics.
unfoldable pub handler_at : Handlers → ℕ → Option Handler
handler_at no_handlers i = none
handler_at (handler h hs) zero = some h
handler_at (handler h hs) (suc i) = handler_at hs i

-- What the test of the index against the length leads to: on to the next node, or to a handler, if
-- the index is not out of range.
pub data Slot : Type 0 where
  slot : Handler → Slot
  past_end out_of_range : Slot

abbrev pub read_slot : Option Handler → Slot
read_slot (some h) = slot h
read_slot none = out_of_range

unfoldable pub slot_at : Handlers → ℕ → Slot
slot_at hs i = if ltb i (size hs) then read_slot (handler_at hs i) else past_end

handler_at-some : (hs : Handlers) (i : ℕ) → i < size hs → (h : Handler) × (handler_at hs i ≡ some h)
unfolding handler_at size
handler_at-some no_handlers i lt = absurd (omega arith)
handler_at-some (handler h hs) zero lt = (h, refl)
handler_at-some (handler h hs) (suc i) lt = handler_at-some hs i (omega arith)

pub data AtIndex (hs : Handlers) (i : ℕ) : Type 0 where
  past : slot_at hs i ≡ past_end → size hs ≤ i → AtIndex hs i
  here :
      (h : Handler) → slot_at hs i ≡ slot h → handler_at hs i ≡ some h → i < size hs → AtIndex hs i

-- The index is never out of range.
pub Slot-cases : (hs : Handlers) (i : ℕ) → AtIndex hs i
unfolding slot_at
Slot-cases hs i = elim (Bool-cases (ltb i (size hs))) [
  | inl below ↦
      let (h, at) = handler_at-some hs i (ground arith) in
      here h (rw (below, at) refl) at (ground arith)
  | inr beyond ↦ past (rw beyond refl) (ground arith)
]

-- `tryMatch`, on the context's path and params. A node without a pattern matches every path.
unfoldable pub try_match : Engine → Text → Option Pattern → MessageParams → Matching
try_match re path none params = matched params
try_match re path (some p) params = match_into re p path params

-- Where the loop stops: at the end of the chain, at a handler of a node that matches, or with a
-- panic of the match or of the index.
pub data Walk : Type 0 where
  ended : Bool → ℕ → Option Handler → MessageParams → Walk
  found : Node → ℕ → Handler → Option Handler → MessageParams → Walk
  walk_panics : MessageParams → Walk

module _ (re : Engine) (path : Text) where
  -- The variables are those of the context: the node, whether it matches, the index, the handler
  -- that was set last, and the params.
  unfoldable pub walk : Node → Bool → ℕ → Option Handler → MessageParams → Walk
  walk nil matches i current params = ended matches i current params
  walk (node a b p hs rest) true i current params = elim (slot_at hs i) [
    | slot h ↦ found (node a b p hs rest) i h current params
    | past_end ↦ walk rest false 0 none params
    | out_of_range ↦ walk_panics params
  ]
  walk (node a b p hs rest) false i current params = elim (try_match re path p params) [
    | no_match ↦ walk rest false i current params
    | panics ↦ walk_panics params
    | matched params' ↦ elim (slot_at hs i) [
      | slot h ↦ found (node a b p hs rest) i h current params'
      | past_end ↦ walk rest false 0 none params'
      | out_of_range ↦ walk_panics params'
    ]
  ]
