-- ===== src/Context/Order.antt =====
-- In which order `Next` reaches the handlers of a chain.
use velaros.Base.{
  arith, ◌≤◌, ℕ, zero, suc, ◌≡◌, ◌≢◌, refl, Bool, true, false, Option, none, some, List, [], ◌∷◌,
  ◌++◌, Text, ◌⊎◌, inl, inr,
}
use velaros.Pattern.Defs.{Engine, Pattern}
use velaros.Pattern.Matching.{MessageParams, Matching, no_match, panics, matched}
use velaros.Pattern.Matching.Agreement.{Documented, match_into-ne-panics}
use velaros.Context.Defs.{Handler, Handlers, no_handlers, handler, Node, nil, node, BindType}
use velaros.Context.Chain
use velaros.Context.Chain.{
  size, handler_at, Slot, slot, past_end, slot_at, Slot-cases, try_match, Walk, ended, found, walk,
}

-- A handler to be run: its node, its place there, and the parameters of the node's match.
pub record Candidate : Type 0 where
  pub at : Node
  pub index : ℕ
  pub handler : Handler
  pub params : MessageParams

abbrev pub all_from : Node → ℕ → Handlers → MessageParams → List Candidate
all_from n i no_handlers params = []
all_from n i (handler h hs) params =
    (record { at = n; index = i; handler = h; params = params }) ∷ all_from n (suc i) hs params

abbrev pub drop_handlers : ℕ → Handlers → Handlers
drop_handlers zero hs = hs
drop_handlers (suc i) no_handlers = no_handlers
drop_handlers (suc i) (handler h hs) = drop_handlers i hs

drop_handlers-past : (hs : Handlers) (i : ℕ) → size hs ≤ i → drop_handlers i hs ≡ no_handlers
unfolding size
drop_handlers-past no_handlers zero le = refl
drop_handlers-past no_handlers (suc i) le = refl
drop_handlers-past (handler h hs) zero le = absurd (omega arith)
drop_handlers-past (handler h hs) (suc i) le = drop_handlers-past hs i (omega arith)

drop_handlers-here :
    (hs : Handlers) (i : ℕ) (h : Handler)
    → handler_at hs i ≡ some h
    → drop_handlers i hs ≡ handler h (drop_handlers (suc i) hs)
unfolding handler_at
drop_handlers-here no_handlers i h at = absurd cc
drop_handlers-here (handler k hs) zero h at = cc
drop_handlers-here (handler k hs) (suc i) h at = drop_handlers-here hs i h at

pub Matching-cases :
    (m : Matching)
    → (m ≡ no_match) ⊎ ((m ≡ panics) ⊎ ((params : MessageParams) × (m ≡ matched params)))
Matching-cases no_match = inl refl
Matching-cases panics = inr (inl refl)
Matching-cases (matched params) = inr (inr (params, refl))

module _ (re : Engine) (path : Text) where
  -- The handlers of the nodes that match, node by node, in the order of registration. A node that
  -- matches sets the parameters for what follows, a node that does not is passed over.
  unfoldable pub candidates : Node → MessageParams → List Candidate
  candidates nil params = []
  candidates (node a b p hs rest) params = elim (try_match re path p params) [
    | matched params' ↦ all_from (node a b p hs rest) 0 hs params' ++ candidates rest params'
    | no_match ↦ candidates rest params
    | panics ↦ []
  ]

  -- What is left at a node that is known to match, from a place on.
  pub remaining : Node → Bool → ℕ → MessageParams → List Candidate
  remaining nil matches i params = []
  remaining (node a b p hs rest) true i params =
      all_from (node a b p hs rest) i (drop_handlers i hs) params ++ candidates rest params
  remaining (node a b p hs rest) false i params = candidates (node a b p hs rest) params

  -- The walk stops at the first candidate, and leaves the others.
  abbrev pub IsFirst : List Candidate → Walk → Type 0
  IsFirst [] (ended _ _ current params) = current ≡ none
  IsFirst (c ∷ cs) (found n i h current params) =
      (c ≡ (record { at = n; index = i; handler = h; params = params }))
      × (remaining n true (suc i) params ≡ cs)
      × (n ≢ nil)
  IsFirst _ _ = ⊥

  pub try_match-ne-panics :
      Documented re
      → (p : Option Pattern) (params : MessageParams) → try_match re path p params ≢ panics
  unfolding try_match
  try_match-ne-panics safe none params = λ e. cc
  try_match-ne-panics safe (some p) params = match_into-ne-panics re p path params safe

  data At (hs : Handlers) (i : ℕ) : Type 0 where
    past : slot_at hs i ≡ past_end → drop_handlers i hs ≡ no_handlers → At hs i
    here :
        (h : Handler)
        → slot_at hs i ≡ slot h
        → drop_handlers i hs ≡ handler h (drop_handlers (suc i) hs)
        → At hs i

  At-place : (hs : Handlers) (i : ℕ) → At hs i
  At-place hs i = elim (Slot-cases hs i) [
    | Chain.past e le ↦ past e (drop_handlers-past hs i le)
    | Chain.here h e at lt ↦ here h e (drop_handlers-here hs i h at)
  ]

  walk_here :
      (a : ℕ) (b : BindType) (p : Option Pattern) (hs : Handlers) (rest : Node) (i : ℕ)
      (current : Option Handler) (params : MessageParams)
      → IsFirst (candidates rest params) (walk re path rest false 0 none params)
      → IsFirst
          (remaining (node a b p hs rest) true i params)
          (walk re path (node a b p hs rest) true i current params)
  unfolding walk remaining
  walk_here a b p hs rest i current params later = elim (At-place hs i) [
    | past e d ↦ rw (e, d, walk, IsFirst) later
    | here h e d ↦ rw (e, d, walk, IsFirst) (refl, refl, (λ q. cc))
  ]

  -- From the first node of a chain, and with an engine that behaves as package regexp documents, the
  -- loop of `Next` stops at the first handler of the nodes whose patterns match the path, in the
  -- order of registration, with the parameters of that node's match; what it leaves behind that
  -- handler is the rest of them; and it comes to the end of the chain, with no handler chosen,
  -- exactly if there is none.
  pub walk-IsFirst :
      (n : Node)
      → Documented re
      → (params : MessageParams)
      → IsFirst (candidates n params) (walk re path n false 0 none params)
  unfolding walk candidates remaining
  walk-IsFirst nil safe params = refl
  walk-IsFirst (node a b p hs rest) safe params =
      elim (Matching-cases (try_match re path p params)) [
        | inl missed ↦ rw (missed, walk, candidates, IsFirst) (walk-IsFirst rest safe params)
        | inr (inl bad) ↦ absurd (try_match-ne-panics safe p params bad)
        | inr (inr (params', hit)) ↦
            rw (hit, walk, candidates, IsFirst)
              (walk_here a b p hs rest 0 none params' (walk-IsFirst rest safe params'))
      ]

  -- From a handler of a node that matches.
  pub walk-IsFirst_matching :
      (n : Node)
      → Documented re
      → (i : ℕ) (current : Option Handler) (params : MessageParams) → n ≢ nil
      → IsFirst (remaining n true i params) (walk re path n true i current params)
  walk-IsFirst_matching nil safe i current params some_node = absurd (some_node refl)
  walk-IsFirst_matching (node a b p hs rest) safe i current params some_node =
      walk_here a b p hs rest i current params (walk-IsFirst rest safe params)
