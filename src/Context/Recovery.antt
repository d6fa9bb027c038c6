-- ===== src/Context/Recovery.antt =====
-- No panic of a message handler leaves `Next`.
use velaros.Base.{
  ◌≢◌, ◌<◌, ℕ, zero, suc, ◌≡◌, refl, sym, ap, ◌∙◌, true, false, Option, none, some, List, [], ◌∷◌,
  Text, arith, All, Bool-cases, inl, inr, Option-cases,
}
use mathlib.Core.Path.{subst}
use velaros.Base.Maps.{lookup}
use velaros.Socket.Defs.{InboundMessage, ReceiverEntry, Socket, Channel}
use velaros.Socket.Ops
use velaros.Context.Defs.{
  Environment, Handler, func, object, router, other, Node, normal_bind_type, World, Outcome,
  returned, panicked, blocked, out_of_fuel, ◌>>=◌,
}
use velaros.Context.Sub.{try_update_parent}
use velaros.Context.Chain.{Walk, ended, found, walk_panics, walk}
use velaros.Context.Order.{Candidate, IsFirst}
use velaros.Context.Termination.Weight.{left}
use velaros.Context.Termination.Call.{next_fuel_total}
use velaros.Context.Next.{
  bind_type_of, exec_with_ctx_recovery, deferred, go_on, run_handler, after_walk, at_handler, place,
  waiting_receiver, stops, next_step, next_fuel, deliver_to,
}
use velaros.Context.Layers.{next_step-walk}

abbrev pub NoPanic : Outcome → Type 0
NoPanic (panicked _ _ _) = ⊥
NoPanic _ = Unit

-- What `bind` accepts: a function, a value with `Handle`, or a router.
abbrev pub IsHandler : Handler → Type 0
IsHandler (func _ _) = Unit
IsHandler (object _ (some _) _ _) = Unit
IsHandler (router _ _ _ _ _) = Unit
IsHandler _ = ⊥

abbrev pub IsMessageHandler : Candidate → Type 0
IsMessageHandler c = (bind_type_of c.at ≡ normal_bind_type) × IsHandler c.handler

-- No channel of a registered receiver is closed.
abbrev pub ReceiversOpen : Socket → Type 0
ReceiversOpen s =
    (id : Text) (r : ReceiverEntry)
    → lookup id s.receivers ≡ some r
    → (s.channels r.ch).closed ≡ false

NoPanic-deferred : (f : World → World) (o : Outcome) → NoPanic o → NoPanic (deferred f o)
NoPanic-deferred f (returned w) h = tt
NoPanic-deferred f (panicked _ _ w) h = absurd h
NoPanic-deferred f (blocked w) h = tt
NoPanic-deferred f out_of_fuel h = tt

NoPanic-deliver_to :
    (ch : ℕ) (chan : Channel) (m : InboundMessage) (w : World)
    → chan.closed ≡ false
    → NoPanic (deliver_to ch chan m w)
NoPanic-deliver_to ch chan m w open_ = rw open_ (ground arith)

module _ (env : Environment) (again : World → Outcome) where
  NoPanic-recovered :
      (o : Outcome) → NoPanic (exec_with_ctx_recovery o >>= go_on env again normal_bind_type)
  NoPanic-recovered (returned w) = tt
  NoPanic-recovered (panicked _ _ w) = tt
  NoPanic-recovered (blocked w) = tt
  NoPanic-recovered out_of_fuel = tt

  NoPanic-run_handler :
      (h : Handler) (w : World) → IsHandler h → NoPanic (run_handler env again normal_bind_type h w)
  unfolding run_handler
  NoPanic-run_handler (func p s) w known = NoPanic-recovered _
  NoPanic-run_handler (object p (some s) o c) w known = NoPanic-recovered _
  NoPanic-run_handler (object p none o c) w known = absurd known
  NoPanic-run_handler (router p ms os cs ds) w known = NoPanic-recovered _
  NoPanic-run_handler (other p) w known = absurd known

  NoPanic-at_handler :
      (m : InboundMessage) (n : Node) (i : ℕ) (h : Handler) (w : World) (receiver : Option ℕ)
      → bind_type_of n ≡ normal_bind_type
      → IsHandler h
      → ((ch : ℕ) → receiver ≡ some ch → (w.socket.channels ch).closed ≡ false)
      → NoPanic (at_handler env again m n i h w receiver)
  unfolding Ops.remove_receiver
  NoPanic-at_handler m n i h w (some ch) normal known open_ =
      NoPanic-deliver_to ch (w.socket.channels ch) m _ (open_ ch refl)
  NoPanic-at_handler m n i h w none normal known open_ = rw normal (NoPanic-run_handler h _ known)

  receiver-open :
      (m : InboundMessage) (n : Node) (i : ℕ) (w : World) (ch : ℕ)
      → ReceiversOpen w.socket
      → waiting_receiver m n i w ≡ some ch
      → (w.socket.channels ch).closed ≡ false
  unfolding Ops.get_receiver_for_node
  receiver-open m n i w ch open_ e = elim (Option-cases (lookup m.id w.socket.receivers)) [
    | inl absent ↦ ground arith
    | inr (r, found_) ↦ ground (arith, open_ m.id r found_)
  ]

  NoPanic-after_walk :
      (m : InboundMessage) (w : World) (cs : List Candidate) (k : Walk)
      → ReceiversOpen w.socket
      → All IsMessageHandler cs
      → IsFirst env.engine m.path cs k
      → NoPanic (after_walk env again m w k)
  NoPanic-after_walk m w [] (ended matches i current params) open_ valid first = rw first tt
  NoPanic-after_walk m w (c ∷ cs) (found n i h current params) open_ ((normal, known), valid)
        (here, later, some_node) =
      let w' = place n true i current params w in
      let normal' : bind_type_of n ≡ normal_bind_type =
        sym (ap (λ (x : Candidate). bind_type_of x.at) here) ∙ normal in
      let known' : IsHandler h = subst (λ (x : Candidate). IsHandler x.handler) here known in
      NoPanic-at_handler m n i h w' (waiting_receiver m n i w') normal' known'
        (λ ch e. receiver-open m n i w' ch open_ e)
  NoPanic-after_walk m w [] (found _ _ _ _ _) open_ valid first = absurd first
  NoPanic-after_walk m w (c ∷ cs) (ended _ _ _ _) open_ valid first = absurd first
  NoPanic-after_walk m w [] (walk_panics _) open_ valid first = absurd first
  NoPanic-after_walk m w (c ∷ cs) (walk_panics _) open_ valid first = absurd first

-- A call of `Next` on a message chain does not panic, whatever its handlers do: if the handlers
-- before the context are such as `bind` accepts, the message is there, its path was not set anew
-- and no registered receiver has a closed channel, then every panic of a handler, of the code
-- behind it and of nested calls is caught on the way.
pub next_fuel-NoPanic :
    (env : Environment) (fuel : ℕ) (cs : List Candidate) (m : InboundMessage) (w : World)
    → w.ctx.message ≡ some m
    → m.has_set_path ≡ false
    → ReceiversOpen w.socket
    → All IsMessageHandler cs
    → IsFirst env.engine m.path cs (
        walk env.engine m.path w.ctx.current_handler_node w.ctx.current_handler_node_matches
          w.ctx.current_handler_index w.ctx.current_handler w.ctx.params)
    → NoPanic (next_fuel env fuel w)
unfolding next_fuel
next_fuel-NoPanic env zero cs m w here no_path open_ valid first = tt
next_fuel-NoPanic env (suc f) cs m w here no_path open_ valid first = elim (Bool-cases (stops w)) [
  | inl halted ↦ unfold next_step in rw halted tt
  | inr going ↦ rw (next_step-walk env (next_fuel env f) m w going here no_path) (
      NoPanic-deferred try_update_parent _ (
        NoPanic-after_walk env (next_fuel env f) m w cs (walk env.engine m.path _ _ _ _ _) open_
          valid first))
]

-- A call that comes to its end or waits for another goroutine.
abbrev pub Settled : Outcome → Type 0
Settled (returned w) = Unit
Settled (blocked w) = Unit
Settled _ = ⊥

Settled-from : (o : Outcome) → NoPanic o → o ≢ out_of_fuel → Settled o
Settled-from (returned w) h ends = tt
Settled-from (panicked _ _ _) h ends = h
Settled-from (blocked w) h ends = tt
Settled-from out_of_fuel h ends = ends refl

-- With fuel for the handlers that are left, such a call returns, or waits for another goroutine.
pub next_fuel-Settled :
    (env : Environment) (fuel : ℕ) (cs : List Candidate) (m : InboundMessage) (w : World)
    → left w.ctx < fuel
    → w.ctx.message ≡ some m
    → m.has_set_path ≡ false
    → ReceiversOpen w.socket
    → All IsMessageHandler cs
    → IsFirst env.engine m.path cs (
        walk env.engine m.path w.ctx.current_handler_node w.ctx.current_handler_node_matches
          w.ctx.current_handler_index w.ctx.current_handler w.ctx.params)
    → Settled (next_fuel env fuel w)
next_fuel-Settled env fuel cs m w lt here no_path open_ valid first =
    Settled-from _ (next_fuel-NoPanic env fuel cs m w here no_path open_ valid first)
      (next_fuel_total env fuel w lt)
