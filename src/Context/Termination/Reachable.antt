-- ===== src/Context/Termination/Reachable.antt =====
-- context_next.go: the handlers that a path reaches, and the handlers of the chain.
use velaros.Base.{ℕ, suc, ◌≤◌, Text, arith, length, length-append, inl, inr}
use velaros.Pattern.Defs.{Engine}
use velaros.Pattern.Matching.{MessageParams}
use velaros.Context.Defs.{
  func, object, router, other, Handlers, no_handlers, handler, Node, nil, node,
}
use velaros.Context.Chain.{try_match}
use velaros.Context.Order.{all_from, candidates, Matching-cases}
use velaros.Context.Termination.Weight.{weight_of, weight_all, weight}

length-all_from :
    (n : Node) (i : ℕ) (hs : Handlers) (params : MessageParams)
    → length (all_from n i hs params) ≤ weight_all hs
unfolding weight_all weight_of
length-all_from n i no_handlers params = omega arith
length-all_from n i (handler (func _ _) hs) params =
    omega (arith, length-all_from n (suc i) hs params)
length-all_from n i (handler (object _ _ _ _) hs) params =
    omega (arith, length-all_from n (suc i) hs params)
length-all_from n i (handler (router _ _ _ _ _) hs) params =
    omega (arith, length-all_from n (suc i) hs params)
length-all_from n i (handler (other _) hs) params =
    omega (arith, length-all_from n (suc i) hs params)

-- No path reaches more handlers than the chain has.
pub length-candidates :
    (re : Engine) (path : Text) (n : Node) (params : MessageParams)
    → length (candidates re path n params) ≤ weight n
unfolding candidates weight
length-candidates re path nil params = omega arith
length-candidates re path (node a b p hs rest) params =
    elim (Matching-cases (try_match re path p params)) [
      | inl missed ↦ rw (missed, candidates) (omega (arith, length-candidates re path rest params))
      | inr (inl bad) ↦ rw (bad, candidates) (omega arith)
      | inr (inr (params', hit)) ↦
          rw (hit, candidates)
            (omega (
              arith,
              length-append (all_from (node a b p hs rest) 0 hs params')
                  (candidates re path rest params'),
              length-all_from (node a b p hs rest) 0 hs params',
              length-candidates re path rest params',
            ))
    ]
