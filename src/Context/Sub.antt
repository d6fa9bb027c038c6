-- ===== src/Context/Sub.antt =====
-- context.go: `NewContextWithNodeAndMessageType`, `NewSubContextWithNode`, `finalize` and
-- `tryUpdateParent`. Sub-contexts and their parents are a stack.
use velaros.Base.{ℕ, Bool, true, false, Option, none, some, List, [], ◌∷◌, Text, if◌then◌else◌}
use velaros.Base.Maps.{copy_into}
use velaros.Pattern.Parse.{is_empty}
use velaros.Socket.Defs.{InboundMessage, MessageType, Socket}
use velaros.Socket.Ops
use velaros.Context.Defs.{Context, unlocked, Node, World}

abbrev pub empty_message : InboundMessage
empty_message = record {
  has_set_id = false;
  has_set_path = false;
  id = [];
  path = [];
  raw_data = [];
  message_data = [];
  meta = none;
}

-- `NewContextWithNodeAndMessageType`; `uuid` is what `uuid.NewString` gives.
unfoldable pub new_context : Text → InboundMessage → Node → MessageType → Context
new_context uuid m first_handler_node type = record {
  message = some (record m { id = if is_empty m.id then uuid else m.id });
  params = [];
  message_type = type;
  message_unmarshaler = none;
  message_marshaller = none;
  current_handler_node = first_handler_node;
  current_handler_node_matches = false;
  associated_values = [];
  current_handler_index = 0;
  current_handler = none;
  next_beyond_end = false;
  receiver_chan = none;
  owns_receiver = false;
  first_receive_done = false;
  err = none;
  error_stack = [];
  cancelled = false;
  mu = unlocked;
}

-- `NewSubContextWithNode`, for a context that has its message. The message is copied.
unfoldable pub new_sub_context : Context → InboundMessage → Node → Context
new_sub_context c m first_handler_node = record {
  message = some m;
  params = copy_into c.params [];
  message_type = c.message_type;
  message_unmarshaler = c.message_unmarshaler;
  message_marshaller = c.message_marshaller;
  current_handler_node = first_handler_node;
  current_handler_node_matches = false;
  associated_values = copy_into c.associated_values [];
  current_handler_index = 0;
  current_handler = none;
  next_beyond_end = false;
  receiver_chan = c.receiver_chan;
  owns_receiver = false;
  first_receive_done = c.first_receive_done;
  err = c.err;
  error_stack = c.error_stack;
  cancelled = false;
  mu = unlocked;
}

abbrev pub push_sub : World → InboundMessage → Node → World
push_sub w m first_handler_node = record w {
  ctx = new_sub_context w.ctx m first_handler_node;
  parents = w.ctx ∷ w.parents;
}

-- The sub-context is left.
abbrev pub pop_in : World → List Context → World
pop_in w [] = w
pop_in w (p ∷ ps) = record w { ctx = p; parents = ps }

abbrev pub pop : World → World
pop w = pop_in w w.parents

abbrev remove_own : Option InboundMessage → Socket → Socket
remove_own none s = s
remove_own (some m) s = Ops.remove_receiver m.id s

-- `for len(c.receiverChan) > 0 { <-c.receiverChan }`
abbrev drain : ℕ → Socket → Socket
drain ch s = record s {
  channels = Ops.update s.channels ch (record { buffer = none; closed = (s.channels ch).closed });
}

abbrev pub finalize_receiver : Option ℕ → Bool → Option InboundMessage → Socket → Socket
finalize_receiver (some ch) true m s = drain ch (remove_own m s)
finalize_receiver _ _ m s = s

-- `finalize`
unfoldable pub finalize : World → World
finalize w = record w {
  ctx = record (w.ctx) { cancelled = true };
  socket = finalize_receiver w.ctx.receiver_chan w.ctx.owns_receiver w.ctx.message w.socket;
}

abbrev pub update_parent : Context → List Context → List Context
update_parent c [] = []
update_parent c (p ∷ ps) =
    record p {
      err = c.err;
      error_stack = c.error_stack;
      associated_values = copy_into c.associated_values p.associated_values;
    }
    ∷ ps

-- `tryUpdateParent`
unfoldable pub try_update_parent : World → World
try_update_parent w = record w { parents = update_parent w.ctx w.parents }
