-- ===== src/Context/Termination/Ops.antt =====
-- What a handler calls leaves its place in the chain, and its parents' places, as they are.
use velaros.Base.{ℕ, ◌≤◌, ◌≡◌, refl, ◌∙◌, List, [], ◌∷◌, arith}
use velaros.Context.Defs.{
  Environment, Op, effect, Context, World, Outcome, returned, panicked, blocked, out_of_fuel, ◌>>=◌,
}
use velaros.Context.Ops.{perform}
use velaros.Context.Calls.{reply, panics, waits, Result}
use velaros.Context.Sub.{pop, pop_in, update_parent, try_update_parent}
use velaros.Context.Next.{deferred, exec_with_ctx_recovery, leave_on_panic}
use velaros.Context.Termination.Weight.{left}

abbrev pub lefts : List Context → List ℕ
lefts [] = []
lefts (c ∷ cs) = left c ∷ lefts cs

abbrev pub Stays : World → World → Type 0
Stays w w' = (left w'.ctx ≡ left w.ctx) × (lefts w'.parents ≡ lefts w.parents)

abbrev pub ResultStays : World → Result → Type 0
ResultStays w (reply r w') = Stays w w'
ResultStays w (panics e w') = Stays w w'
ResultStays w (waits w') = Unit

pub perform-ResultStays :
    (env : Environment) (op : Op) (w : World) → ResultStays w (perform env op w)
unfolding perform
perform-ResultStays env (effect n) w = (refl, refl)
perform-ResultStays env _ w = ground arith

-- The end of a call: not more handlers are left than before, and the parents are where they were.
abbrev pub Settles : ℕ → List ℕ → Outcome → Type 0
Settles l ps (returned w) = (left w.ctx ≤ l) × (lefts w.parents ≡ ps)
Settles l ps (panicked _ _ w) = (left w.ctx ≤ l) × (lefts w.parents ≡ ps)
Settles l ps (blocked w) = Unit
Settles l ps out_of_fuel = ⊥

pub Settles-bind :
    (l : ℕ) (ps : List ℕ) (o : Outcome) (g : World → Outcome)
    → Settles l ps o
    → ((w : World) → left w.ctx ≤ l → lefts w.parents ≡ ps → Settles l ps (g w))
    → Settles l ps (o >>= g)
Settles-bind l ps (returned w) g (le, eq) h = h w le eq
Settles-bind l ps (panicked _ _ w) g s h = s
Settles-bind l ps (blocked w) g s h = tt
Settles-bind l ps out_of_fuel g s h = absurd s

pub Settles-le :
    (l l' : ℕ) (ps ps' : List ℕ) (o : Outcome)
    → l ≤ l'
    → ps ≡ ps'
    → Settles l ps o
    → Settles l' ps' o
Settles-le l l' ps ps' (returned w) le e (s, q) = (omega arith, q ∙ e)
Settles-le l l' ps ps' (panicked _ _ w) le e (s, q) = (omega arith, q ∙ e)
Settles-le l l' ps ps' (blocked w) le e s = tt
Settles-le l l' ps ps' out_of_fuel le e s = absurd s

lefts-update_parent : (c : Context) (ps : List Context) → lefts (update_parent c ps) ≡ lefts ps
lefts-update_parent c [] = refl
lefts-update_parent c (p ∷ ps) = refl

pub Settles-deferred :
    (l : ℕ) (ps : List ℕ) (o : Outcome)
    → Settles l ps o
    → Settles l ps (deferred try_update_parent o)
unfolding try_update_parent
Settles-deferred l ps (returned w) (le, eq) = (le, lefts-update_parent w.ctx w.parents ∙ eq)
Settles-deferred l ps (panicked _ _ w) (le, eq) = (le, lefts-update_parent w.ctx w.parents ∙ eq)
Settles-deferred l ps (blocked w) s = tt
Settles-deferred l ps out_of_fuel s = absurd s

pub Settles-recovery :
    (l : ℕ) (ps : List ℕ) (o : Outcome) → Settles l ps o → Settles l ps (exec_with_ctx_recovery o)
Settles-recovery l ps (returned w) s = s
Settles-recovery l ps (panicked _ _ w) s = s
Settles-recovery l ps (blocked w) s = s
Settles-recovery l ps out_of_fuel s = s

-- Leaving a sub-context leads back to its parent's place.
pop_stays :
    (w : World) (cs : List Context) {l : ℕ} {ps : List ℕ}
    → lefts cs ≡ l ∷ ps
    → (left (pop_in w cs).ctx ≡ l) × (lefts (pop_in w cs).parents ≡ ps)
pop_stays w [] e = absurd (cc)
pop_stays w (c ∷ cs) e = (cc, cc)

pub pop-Stays :
    (w : World) {l : ℕ} {ps : List ℕ}
    → lefts w.parents ≡ l ∷ ps
    → (left (pop w).ctx ≡ l) × (lefts (pop w).parents ≡ ps)
pop-Stays w e = pop_stays w w.parents e

pub Settles-leave_on_panic :
    (k l : ℕ) (ps : List ℕ) (o : Outcome) (g : World → Outcome)
    → Settles k (l ∷ ps) o
    → ((w : World) → lefts w.parents ≡ l ∷ ps → Settles l ps (g w))
    → Settles l ps (leave_on_panic o >>= g)
Settles-leave_on_panic k l ps (returned w) g (le, eq) h = h w eq
Settles-leave_on_panic k l ps (panicked _ _ w) g (le, eq) h =
    let (here, above) = pop-Stays w eq in (omega arith, above)
Settles-leave_on_panic k l ps (blocked w) g s h = tt
Settles-leave_on_panic k l ps out_of_fuel g s h = absurd s
