-- ===== src/Socket/Ops.antt =====
-- socket.go: the operations on a socket. Each runs under a mutex of the Go code, and so is one step.
use velaros.Base.{
  ℕ, ◌+◌, Bool, true, false, not, ◌||◌, Option, none, some, [], ◌∷◌, Text, ◌==◌, if◌then◌else◌,
}
use velaros.Base.Maps.{TextMap, lookup, insert, delete}
use velaros.Socket.Defs.{
  Value, Bytes, Status, CloseSource, client_close_source, MessageType, ReceiverEntry, Channel,
  Socket,
}

abbrev pub update {ℓ} : {A : Type ℓ} → (ℕ → A) → ℕ → A → ℕ → A
update f i a j = if i == j then a else f j

abbrev pub empty_channel : Channel
empty_channel = record { buffer = none; closed = false }

-- `NewSocket`; the id is what `uuid.NewString` gives.
abbrev pub new_socket : Text → Socket
new_socket id = record {
  id = id;
  receivers = [];
  message_id_locks = [];
  associated_values = [];
  closed = false;
  close_status = 0;
  close_status_source = client_close_source;
  close_reason = [];
  cancelled = false;
  channels = λ _. empty_channel;
  next_channel = 0;
  lock_closed = λ _. false;
  next_lock = 0;
  written = [];
}

-- `close(s.receivers[id].ch)` for every receiver.
unfoldable pub close_receivers : TextMap ReceiverEntry → (ℕ → Channel) → ℕ → Channel
close_receivers [] channels = channels
close_receivers ((_, r) ∷ rs) channels =
    close_receivers rs
      (update channels r.ch (record { buffer = (channels r.ch).buffer; closed = true }))

-- `Close`
unfoldable pub close : Status → Text → CloseSource → Socket → Socket
close status reason source s = if s.closed then s else record s {
  closed = true;
  close_status = status;
  close_reason = reason;
  close_status_source = source;
  channels = close_receivers s.receivers s.channels;
  receivers = [];
  message_id_locks = [];
  cancelled = true;
}

-- `IsClosed`
abbrev pub is_closed : Socket → Bool
is_closed s = s.closed

-- `Send`; the connection's error is that of the caller's `Write`.
unfoldable pub send : MessageType → Bytes → Socket → Socket
send type bytes s = record s {
  written = (record { type = type; raw_data = []; message_data = bytes; meta = none }) ∷ s.written;
}

-- `Set`, `Get` and `Delete`
unfoldable pub set_value : Text → Value → Socket → Socket
set_value key value s = record s { associated_values = insert key value s.associated_values }

unfoldable pub get_value : Text → Socket → Option Value
get_value key s = lookup key s.associated_values

unfoldable pub delete_value : Text → Socket → Socket
delete_value key s = record s { associated_values = delete key s.associated_values }

abbrev pub entry_channel : ℕ → ℕ → Option ReceiverEntry → Option ℕ
entry_channel node index none = none
entry_channel node index (some r) =
    if not (r.node == node) || not (r.handler_index == index) then none else some r.ch

-- `GetReceiverForNode`
unfoldable pub get_receiver_for_node : Text → ℕ → ℕ → Socket → Option ℕ
get_receiver_for_node id node index s = entry_channel node index (lookup id s.receivers)

-- `AddReceiver`
unfoldable pub add_receiver : Text → ℕ → ℕ → ℕ → Socket → Socket
add_receiver id node index ch s = record s {
  receivers = insert id (record { node = node; handler_index = index; ch = ch }) s.receivers;
}

-- `RemoveReceiver`
unfoldable pub remove_receiver : Text → Socket → Socket
remove_receiver id s = record s { receivers = delete id s.receivers }

-- `make(chan *InboundMessage, 1)`
unfoldable pub make_channel : Socket → ℕ × Socket
make_channel s = (
  s.next_channel,
  record s {
    channels = update s.channels s.next_channel empty_channel;
    next_channel = s.next_channel + 1;
  },
)

abbrev acquire_in : Text → Option ℕ → Socket → ℕ × Bool × Socket
acquire_in id (some ch) s = (ch, false, s)
acquire_in id none s = (
  s.next_lock,
  true,
  record s {
    message_id_locks = insert id s.next_lock s.message_id_locks;
    lock_closed = update s.lock_closed s.next_lock false;
    next_lock = s.next_lock + 1;
  },
)

-- `acquireMessageIDLock`: the lock's channel, and whether the caller is first.
unfoldable pub acquire_message_id_lock : Text → Socket → ℕ × Bool × Socket
acquire_message_id_lock id s = acquire_in id (lookup id s.message_id_locks) s

abbrev release_in : Text → Option ℕ → Socket → Socket
release_in id none s = s
release_in id (some ch) s = record s {
  message_id_locks = delete id s.message_id_locks;
  lock_closed = update s.lock_closed ch true;
}

-- `releaseMessageIDLock`
unfoldable pub release_message_id_lock : Text → Socket → Socket
release_message_id_lock id s = release_in id (lookup id s.message_id_locks) s
