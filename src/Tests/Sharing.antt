-- ===== src/Tests/Sharing.antt =====
-- Values that contexts and the sub-contexts of mounted routers share.
use velaros.Base.{◌≡◌, refl, some, [], ◌∷◌, codes, text_eq}
use velaros.Base.Maps.{insert, copy_into}
use velaros.Context.Defs.{nil, World, returned}
use velaros.Context.Next.{next_fuel}
use velaros.Context.Sharing.{Shares, next_fuel-Shares}
use velaros.Tests.Fixtures.{a, b, env, message_to, at_chain, runs}

-- A context with two values, and a sub-context that has changed one of them.
abbrev above : World
above = record (at_chain nil (message_to a)) {
  ctx = record ((at_chain nil (message_to a)).ctx) { associated_values = (a, 1) ∷ (b, 2) ∷ [] };
}

abbrev below : World
below = record above {
  ctx = record (above.ctx) { associated_values = (b, 3) ∷ []; err = some (codes "broken") };
  parents = above.ctx ∷ [];
}

-- `Next` on it stops at the error, and hands it up with the value.
abbrev after : World
after = record below {
  parents =
      (record (above.ctx) { err = some (codes "broken"); associated_values = (a, 1) ∷ (b, 3) ∷ [] })
      ∷ [];
}

stops_at_error : next_fuel env 1 below ≡ returned after
unfolding runs copy_into insert text_eq
stops_at_error = refl

next_fuel-Shares_example :
    Shares b after.ctx
      (record (above.ctx) { err = some (codes "broken"); associated_values = (a, 1) ∷ (b, 3) ∷ [] })
next_fuel-Shares_example = next_fuel-Shares env 1 b below after _ [] stops_at_error refl (refl, tt)
