-- ===== src/Context/Sharing.antt =====
-- context.go, `NewSubContextWithNode` and `tryUpdateParent`: the values that a context and its
-- sub-contexts share.
use velaros.Base.{ℕ, zero, suc, ◌≡◌, refl, sym, Option, none, some, List, [], ◌∷◌, Text}
use mathlib.Core.Path.{subst}
use velaros.Base.Maps.{lookup, copy_into, NoRepeats, or_value, lookup-copy_into}
use velaros.Socket.Defs.{Value}
use velaros.Context.Defs.{
  Environment, Context, World, Outcome, returned, panicked, blocked, out_of_fuel,
}
use velaros.Context.Next.{deferred, next_step, next_fuel}
use velaros.Context.Sub.{update_parent, try_update_parent}

abbrev taken_over : Context → Context → Context
taken_over c p = record p {
  err = c.err;
  error_stack = c.error_stack;
  associated_values = copy_into c.associated_values p.associated_values;
}

-- What a context holds under a key is held there by its parent as well.
abbrev pub Covers : Option Value → Option Value → Type 0
Covers none o = Unit
Covers (some v) o = o ≡ some v

Covers-or_value : (o old : Option Value) → Covers o (or_value o old)
Covers-or_value none old = tt
Covers-or_value (some v) old = refl

abbrev pub Shares : Text → Context → Context → Type 0
Shares key c p =
    (p.err ≡ c.err)
    × (p.error_stack ≡ c.error_stack)
    × Covers (lookup key c.associated_values) (lookup key p.associated_values)

Shares-update_parent :
    (key : Text) (c p : Context) (ps qs : List Context)
    → update_parent c qs ≡ p ∷ ps
    → NoRepeats c.associated_values
    → Shares key c p
Shares-update_parent key c p ps [] is unique = absurd cc
Shares-update_parent key c p ps (q ∷ qs) is unique =
    let updated : taken_over c q ≡ p = cc in
    subst (Shares key c) updated (
      refl,
      refl,
      subst (Covers (lookup key c.associated_values))
          (sym (lookup-copy_into key c.associated_values q.associated_values unique))
          (Covers-or_value _ _),
    )

deferred-Shares :
    (key : Text) (o : Outcome) (v : World) (p : Context) (ps : List Context)
    → deferred try_update_parent o ≡ returned v
    → v.parents ≡ p ∷ ps
    → NoRepeats v.ctx.associated_values
    → Shares key v.ctx p
unfolding try_update_parent
deferred-Shares key (returned x) v p ps is left unique =
    let same : try_update_parent x ≡ v = cc in
    subst
      (λ (u : World). u.parents ≡ p ∷ ps → NoRepeats u.ctx.associated_values → Shares key u.ctx p)
      same (Shares-update_parent key x.ctx p ps x.parents) left unique
deferred-Shares key (panicked _ _ x) v p ps is left unique = absurd cc
deferred-Shares key (blocked x) v p ps is left unique = absurd cc
deferred-Shares key out_of_fuel v p ps is left unique = absurd cc

-- Whatever `Next` does on the context of a mounted router, whether it stops at once, runs handlers that
-- panic, or mounts further routers: where it returns, the context's parent has its error and its
-- trace, and under every key where the context holds a value the parent holds that value. The
-- context's map is one without repeated keys.
pub next_fuel-Shares :
    (env : Environment) (fuel : ℕ) (key : Text) (w v : World) (p : Context) (ps : List Context)
    → next_fuel env fuel w ≡ returned v
    → v.parents ≡ p ∷ ps
    → NoRepeats v.ctx.associated_values
    → Shares key v.ctx p
unfolding next_fuel next_step
next_fuel-Shares env zero key w v p ps is left unique = absurd cc
next_fuel-Shares env (suc fuel) key w v p ps is left unique =
    deferred-Shares key _ v p ps is left unique
