-- ===== src/Context/Nesting.antt =====
-- A mounted router that has no handler for a message.
use velaros.Base.{
  ℕ, suc, ◌≡◌, refl, ap, ◌∙◌, false, not, ◌&&◌, Option, none, some, [], arith, if◌then◌else◌,
  Bool-cases, inl, inr,
}
use velaros.Base.Maps.{copy_into}
use velaros.Socket.Defs.{InboundMessage, Socket}
use velaros.Socket.Ops
use velaros.Pattern.Matching.Agreement.{Documented}
use velaros.Context.Defs.{Environment, Node, Context, World, Outcome, ◌>>=◌}
use velaros.Context.Sub.{try_update_parent, push_sub, finalize, new_sub_context, finalize_receiver}
use velaros.Context.Chain.{Walk, ended, found, walk_panics, walk}
use velaros.Context.Order.{IsFirst, candidates, walk-IsFirst}
use velaros.Context.Next.{
  deferred, route_message, route_through, after_walk, stops, next_fuel, is_some, leave_on_panic,
  after_sub,
}
use velaros.Context.Layers.{next_step-walk}

-- What a message leaves behind at the end of a chain that has no handler for it: the receiver
-- that waits for its id, if any, is gone.
abbrev pub forgotten : InboundMessage → Context → Socket → Socket
forgotten m c s =
    if m.has_set_id && not (is_some c.receiver_chan) then Ops.remove_receiver m.id s else s

-- The parent goes on with its own values once more written into its map.
abbrev pub passed_by : InboundMessage → World → World
passed_by m w = record w {
  ctx = record (w.ctx) {
    associated_values = copy_into (copy_into w.ctx.associated_values []) w.ctx.associated_values;
  };
  socket = forgotten m w.ctx w.socket;
}

finalize_not_own :
    (ch : Option ℕ) (m : Option InboundMessage) (s : Socket) → finalize_receiver ch false m s ≡ s
finalize_not_own none m s = refl
finalize_not_own (some ch) m s = refl

module _ (env : Environment) (again outer : World → Outcome) where
  -- The sub-context at the end of its chain, and what `Handle` does then.
  leave_sub :
      (m : InboundMessage) (sub : Node) (w : World) (k : Walk)
      → IsFirst env.engine m.path [] k
      → (leave_on_panic (deferred try_update_parent (after_walk env again m (push_sub w m sub) k))
          >>= after_sub env outer)
        ≡ outer (passed_by m w)
  unfolding try_update_parent finalize new_sub_context
  leave_sub m sub w (ended matches i current params) first =
      elim (Bool-cases (m.has_set_id && not (is_some w.ctx.receiver_chan))) [
        | inl known ↦ rw (first, known, finalize_not_own)
        | inr fresh ↦ rw (first, fresh, finalize_not_own)
      ]
  leave_sub m sub w (found _ _ _ _ _) first = absurd first
  leave_sub m sub w (walk_panics _) first = absurd first

-- A mounted router that has no handler for a message is passed by: the parent's `Next` goes on,
-- on the parent's place, with its error, parameters and values; but the receiver that waits for
-- the message's id is gone, although the handler that waits may stand behind the router.
-- The parent has the message, whose path was not set anew, and no error; the socket is open; and the
-- engine behaves as package regexp documents.
pub route_through-passed_by :
    (env : Environment) (fuel : ℕ) (sub : Node) (m : InboundMessage) (w : World)
    → w.ctx.message ≡ some m
    → m.has_set_path ≡ false
    → w.ctx.err ≡ none
    → w.socket.closed ≡ false
    → Documented env.engine
    → candidates env.engine m.path sub (copy_into w.ctx.params []) ≡ []
    → route_through env (next_fuel env (suc fuel)) sub w ≡ next_fuel env (suc fuel) (passed_by m w)
unfolding route_through next_fuel new_sub_context
route_through-passed_by env fuel sub m w here no_path no_error open_ safe unrouted =
    let again = next_fuel env fuel in
    let k = walk env.engine m.path sub false 0 none (copy_into w.ctx.params []) in
    let first : IsFirst env.engine m.path [] k =
      rw unrouted at (walk-IsFirst env.engine m.path sub safe (copy_into w.ctx.params [])) in
    let going : stops (push_sub w m sub) ≡ false = rw (no_error, open_) (ground arith) in
    let outer = next_fuel env (suc fuel) in
    ap (route_message env outer sub w) here
    ∙ ap (λ (o : Outcome). leave_on_panic o >>= after_sub env outer)
        (next_step-walk env again m (push_sub w m sub) going refl no_path)
    ∙ leave_sub env again outer m sub w k first
