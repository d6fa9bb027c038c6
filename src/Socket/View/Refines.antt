-- ===== src/Socket/View/Refines.antt =====
-- socket.go: a socket answers as its view promises.
use velaros.Base.{
  ℕ, arith, Option, none, some, ◌+◌, ◌≡◌, refl, ap, ◌∙◌, Bool-cases, true, false, Option-cases,
  List, [], ◌∷◌, inl, inr,
}
use mathlib.Core.Path.{fun_ext}
use velaros.Base.Maps.{lookup, lookup-insert, lookup-delete}
use velaros.Socket.Defs.{ReceiverEntry, Socket}
use velaros.Socket.Ops
use velaros.Socket.Ops.{update, entry_channel}
use velaros.Socket.View.{
  receiver, waits_at, View, view, Call, close, send, set, get, delete, get_receiver, add_receiver,
  remove_receiver, make_channel, acquire, release, is_released, is_closed, Answer, no_answer, lock,
  run, promise,
}

abbrev pub seen : Answer × Socket → Answer × View
seen (a, s) = (a, view s)

entry_channel-waits_at :
    (node index : ℕ) (o : Option ReceiverEntry) → entry_channel node index o ≡ waits_at node index o
entry_channel-waits_at node index none = refl
entry_channel-waits_at node index (some r) = ground arith

-- Each operation does to the view what it promises, and answers what it promises.
view-run : (c : Call) (s : Socket) → seen (run c s) ≡ promise c (view s)
unfolding run promise lookup Ops.close Ops.send Ops.set_value Ops.get_value Ops.delete_value
    Ops.get_receiver_for_node Ops.add_receiver Ops.remove_receiver Ops.make_channel
    Ops.acquire_message_id_lock Ops.release_message_id_lock
view-run (close status reason source) s = elim (Bool-cases s.closed) [
  | inl closed ↦ rw (closed, Ops.close) refl
  | inr open_ ↦ rw (open_, Ops.close) refl
]
view-run (send type bytes) s = refl
view-run (set key x) s =
    ap (λ f. (no_answer, record (view s) { values = f }))
      (fun_ext (λ j. lookup-insert key j x s.associated_values))
view-run (get key) s = refl
view-run (delete key) s =
    ap (λ f. (no_answer, record (view s) { values = f }))
      (fun_ext (λ j. lookup-delete key j s.associated_values))
view-run (get_receiver id node index) s =
    ap (λ o. (receiver o, view s)) (entry_channel-waits_at node index (lookup id s.receivers))
view-run (add_receiver id node index ch) s =
    let r : ReceiverEntry = record { node = node; handler_index = index; ch = ch } in
    ap (λ f. (no_answer, record (view s) { receivers = f }))
      (fun_ext (λ j. lookup-insert id j r s.receivers))
view-run (remove_receiver id) s =
    ap (λ f. (no_answer, record (view s) { receivers = f }))
      (fun_ext (λ j. lookup-delete id j s.receivers))
view-run make_channel s = refl
view-run (acquire id) s = elim (Option-cases (lookup id s.message_id_locks)) [
  | inl free ↦ rw free (
      ap
        (λ f. (
          lock s.next_lock true,
          record (view s) {
            locks = f;
            lock_closed = update s.lock_closed s.next_lock false;
            next_lock = s.next_lock + 1;
          },
        ))
        (fun_ext (λ j. lookup-insert id j s.next_lock s.message_id_locks)))
  | inr (ch, taken) ↦ rw taken refl
]
view-run (release id) s = elim (Option-cases (lookup id s.message_id_locks)) [
  | inl free ↦ rw free refl
  | inr (ch, taken) ↦ rw taken (
      ap
        (λ f.
          (no_answer, record (view s) { locks = f; lock_closed = update s.lock_closed ch true }))
        (fun_ext (λ j. lookup-delete id j s.message_id_locks)))
]
view-run (is_released ch) s = refl
view-run is_closed s = refl

-- A sequence of operations, and its answers.
unfoldable pub answers : List Call → Socket → List Answer
unfolding run
answers [] s = []
answers (c ∷ cs) s = let (a, s') = run c s in a ∷ answers cs s'

unfoldable pub promised : List Call → View → List Answer
unfolding promise
promised [] v = []
promised (c ∷ cs) v = let (a, v') = promise c v in a ∷ promised cs v'

-- A socket answers every sequence of operations as its view promises: values, receivers and locks
-- are functions of their keys, Close keeps the first status and forgets receivers and locks, and the
-- order in which the maps hold their entries is not to be seen.
pub answers-promised : (cs : List Call) (s : Socket) → answers cs s ≡ promised cs (view s)
unfolding answers promised
answers-promised [] s = refl
answers-promised (c ∷ cs) s =
    ap (◌∷◌ (run c s).0) (answers-promised cs (run c s).1)
    ∙ ap (λ (r : Answer × View). r.0 ∷ promised cs r.1) (view-run c s)
