-- ===== src/Router/Finding.antt =====
-- router.go: what `Lookup` finds.
use velaros.Base.{
  ℕ, ◌≡◌, refl, sym, ◌∙◌, ap, Option, none, some, List, [], ◌∷◌, ◌++◌, ◌==◌, if◌then◌else◌, inl,
  inr, Bool-cases,
}
use velaros.Pattern.Defs.{Pattern}
use velaros.Context.Defs.{
  Handler, func, object, router, other, Handlers, no_handlers, handler, Node, nil, node,
}
use velaros.Router.Defs.{Router}
use velaros.Router.Ops.{
  Lookup, not_found, found, no_pointer, or_then, lookup_chain, lookup_handlers, lookup_handler,
  lookup_route,
}

-- The handlers of a chain by their pointers, as far as they have one, each with its node's pattern, in the order of
-- registration; those of a router that is mounted stand right behind the router.
unfoldable mutual
  pub entries : Node → List (Option ℕ × Option Pattern)
  entries nil = []
  entries (node a b p hs rest) = handlers_entries p hs ++ entries rest

  handlers_entries : Option Pattern → Handlers → List (Option ℕ × Option Pattern)
  handlers_entries p no_handlers = []
  handlers_entries p (handler h hs) = handler_entries p h ++ handlers_entries p hs

  handler_entries : Option Pattern → Handler → List (Option ℕ × Option Pattern)
  handler_entries p (func n _) = (some n, p) ∷ []
  handler_entries p (object n _ _ _) = (n, p) ∷ []
  handler_entries p (other n) = (n, p) ∷ []
  handler_entries p (router n messages _ _ _) = (some n, p) ∷ entries messages

-- The pattern of the first entry with that pointer, unless one without a pointer comes before it.
abbrev pub first_with : ℕ → List (Option ℕ × Option Pattern) → Lookup
first_with target [] = not_found
first_with target ((none, p) ∷ es) = no_pointer
first_with target ((some n, p) ∷ es) = if n == target then found p else first_with target es

first_with-append :
    (target : ℕ) (xs ys : List (Option ℕ × Option Pattern))
    → first_with target (xs ++ ys) ≡ or_then (first_with target xs) (first_with target ys)
first_with-append target [] ys = refl
first_with-append target ((none, p) ∷ xs) ys = refl
first_with-append target ((some n, p) ∷ xs) ys = elim (Bool-cases (n == target)) [
  | inl same ↦ rw same refl
  | inr differ ↦ rw differ (first_with-append target xs ys)
]

both : {x x' y y' : Lookup} → x ≡ x' → y ≡ y' → or_then x y ≡ or_then x' y'
both {x' = x'} {y = y} e e' = ap (λ o. or_then o y) e ∙ ap (or_then x') e'

mutual
  unfolding entries handlers_entries handler_entries lookup_chain lookup_handlers lookup_handler

  lookup_chain-first :
      (target : ℕ) (n : Node) → lookup_chain target n ≡ first_with target (entries n)
  lookup_chain-first target nil = refl
  lookup_chain-first target (node a b p hs rest) =
      both (lookup_handlers-first target p hs) (lookup_chain-first target rest)
      ∙ sym (first_with-append target (handlers_entries p hs) (entries rest))

  lookup_handlers-first :
      (target : ℕ) (p : Option Pattern) (hs : Handlers)
      → lookup_handlers target p hs ≡ first_with target (handlers_entries p hs)
  lookup_handlers-first target p no_handlers = refl
  lookup_handlers-first target p (handler h hs) =
      both (lookup_handler-first target p h) (lookup_handlers-first target p hs)
      ∙ sym (first_with-append target (handler_entries p h) (handlers_entries p hs))

  lookup_handler-first :
      (target : ℕ) (p : Option Pattern) (h : Handler)
      → lookup_handler target p h ≡ first_with target (handler_entries p h)
  lookup_handler-first target p (func n _) = refl
  lookup_handler-first target p (object none _ _ _) = refl
  lookup_handler-first target p (object (some n) _ _ _) = refl
  lookup_handler-first target p (other none) = refl
  lookup_handler-first target p (other (some n)) = refl
  lookup_handler-first target p (router n messages _ _ _) =
      ap (λ o. if n == target then found p else o) (lookup_chain-first target messages)

-- What the entries of a router answer to a handler's pointer.
abbrev pub first_pointer : Option ℕ → List (Option ℕ × Option Pattern) → Lookup
first_pointer none es = no_pointer
first_pointer (some target) es = first_with target es

-- `Lookup` finds the pattern of the first handler with the given one's pointer, in the order of
-- registration, where the handlers of a mounted router, with the patterns that they have there, come
-- right behind it; it panics if the given handler has no pointer, or if one that has none comes before
-- any with that pointer; and it finds nothing exactly if all handlers have pointers and none has that
-- one.
pub lookup_route-first :
    (target : Option ℕ) (r : Router)
    → lookup_route target r ≡ first_pointer target (entries r.first_handler_node)
unfolding lookup_route
lookup_route-first none r = refl
lookup_route-first (some target) r = lookup_chain-first target r.first_handler_node
