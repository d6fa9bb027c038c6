-- ===== src/Socket/View.antt =====
-- socket.go: a socket's maps as what `Get`, `GetReceiverForNode` and `acquireMessageIDLock` can see
-- of them.
pub mod Refines
use velaros.Base.{
  ℕ, ◌+◌, ◌==◌, ◌&&◌, ◌≡◌, refl, ap, ◌∙◌, Bool, Bool-cases, true, false, Option, Option-cases, none,
  some, List, [], ◌∷◌, Text, text_eq, if◌then◌else◌, inl, inr,
}
use mathlib.Core.Path.{fun_ext}
use velaros.Base.Maps.{lookup, lookup-insert, lookup-delete}
use velaros.Socket.Defs.{
  Value, Bytes, Status, CloseSource, MessageType, SocketMessage, ReceiverEntry, Socket,
}
use velaros.Socket.Ops
use velaros.Socket.Ops.{update}

-- A map is a function of its keys; what stands behind the receivers' channels is left out.
pub record View : Type 0 where
  pub values : Text → Option Value
  pub receivers : Text → Option ReceiverEntry
  pub locks : Text → Option ℕ
  pub lock_closed : ℕ → Bool
  pub next_lock : ℕ
  pub next_channel : ℕ
  pub closed : Bool
  pub close_status : Status
  pub close_reason : Text
  pub close_status_source : CloseSource
  pub cancelled : Bool
  pub written : List SocketMessage

abbrev pub view : Socket → View
view s = record {
  values = λ key. lookup key s.associated_values;
  receivers = λ id. lookup id s.receivers;
  locks = λ id. lookup id s.message_id_locks;
  lock_closed = s.lock_closed;
  next_lock = s.next_lock;
  next_channel = s.next_channel;
  closed = s.closed;
  close_status = s.close_status;
  close_reason = s.close_reason;
  close_status_source = s.close_status_source;
  cancelled = s.cancelled;
  written = s.written;
}

-- The operations of a socket, and their answers; `is_released` is what a goroutine that waits for a
-- lock sees of its channel.
pub data Call : Type 0 where
  close : Status → Text → CloseSource → Call
  send : MessageType → Bytes → Call
  set : Text → Value → Call
  get : Text → Call
  delete : Text → Call
  get_receiver : Text → ℕ → ℕ → Call
  add_receiver : Text → ℕ → ℕ → ℕ → Call
  remove_receiver : Text → Call
  make_channel : Call
  acquire : Text → Call
  release : Text → Call
  is_released : ℕ → Call
  is_closed : Call

pub data Answer : Type 0 where
  no_answer : Answer
  value : Option Value → Answer
  receiver : Option ℕ → Answer
  channel : ℕ → Answer
  lock : ℕ → Bool → Answer
  flag : Bool → Answer

abbrev acquired : ℕ × Bool × Socket → Answer × Socket
acquired (ch, first, s) = (lock ch first, s)

abbrev made : ℕ × Socket → Answer × Socket
made (ch, s) = (channel ch, s)

unfoldable pub run : Call → Socket → Answer × Socket
run (close status reason source) s = (no_answer, Ops.close status reason source s)
run (send type bytes) s = (no_answer, Ops.send type bytes s)
run (set key v) s = (no_answer, Ops.set_value key v s)
run (get key) s = (value (Ops.get_value key s), s)
run (delete key) s = (no_answer, Ops.delete_value key s)
run (get_receiver id node index) s = (receiver (Ops.get_receiver_for_node id node index s), s)
run (add_receiver id node index ch) s = (no_answer, Ops.add_receiver id node index ch s)
run (remove_receiver id) s = (no_answer, Ops.remove_receiver id s)
run make_channel s = made (Ops.make_channel s)
run (acquire id) s = acquired (Ops.acquire_message_id_lock id s)
run (release id) s = (no_answer, Ops.release_message_id_lock id s)
run (is_released ch) s = (flag (s.lock_closed ch), s)
run is_closed s = (flag (Ops.is_closed s), s)

abbrev pub put {ℓ} : {A : Type ℓ} → Text → Option A → (Text → Option A) → Text → Option A
put key a f key' = if text_eq key key' then a else f key'

abbrev pub acquire_in : Text → View → Option ℕ → Answer × View
acquire_in id v (some ch) = (lock ch false, v)
acquire_in id v none = (
  lock v.next_lock true,
  record v {
    locks = put id (some v.next_lock) v.locks;
    lock_closed = update v.lock_closed v.next_lock false;
    next_lock = v.next_lock + 1;
  },
)

abbrev pub release_in : Text → View → Option ℕ → View
release_in id v none = v
release_in id v (some ch) = record v {
  locks = put id none v.locks;
  lock_closed = update v.lock_closed ch true;
}

-- The channel of a receiver, if it waits at that place of that node.
abbrev pub waits_at : ℕ → ℕ → Option ReceiverEntry → Option ℕ
waits_at node index none = none
waits_at node index (some r) =
    if (r.node == node) && (r.handler_index == index) then some r.ch else none

-- What each operation promises.
unfoldable pub promise : Call → View → Answer × View
promise (close status reason source) v = (
  no_answer,
  if v.closed then v else record v {
    closed = true;
    close_status = status;
    close_reason = reason;
    close_status_source = source;
    receivers = λ _. none;
    locks = λ _. none;
    cancelled = true;
  },
)
promise (send type bytes) v = (
  no_answer,
  record v {
    written =
        (record { type = type; raw_data = []; message_data = bytes; meta = none }) ∷ v.written;
  },
)
promise (set key x) v = (no_answer, record v { values = put key (some x) v.values })
promise (get key) v = (value (v.values key), v)
promise (delete key) v = (no_answer, record v { values = put key none v.values })
promise (get_receiver id node index) v = (receiver (waits_at node index (v.receivers id)), v)
promise (add_receiver id node index ch) v = (
  no_answer,
  record v {
    receivers = put id (some (record { node = node; handler_index = index; ch = ch })) v.receivers;
  },
)
promise (remove_receiver id) v = (no_answer, record v { receivers = put id none v.receivers })
promise make_channel v = (channel v.next_channel, record v { next_channel = v.next_channel + 1 })
promise (acquire id) v = acquire_in id v (v.locks id)
promise (release id) v = (no_answer, release_in id v (v.locks id))
promise (is_released ch) v = (flag (v.lock_closed ch), v)
promise is_closed v = (flag (v.closed), v)
