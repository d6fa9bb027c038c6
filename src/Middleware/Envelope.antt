-- ===== src/Middleware/Envelope.antt =====
-- middleware/json/middleware.go, middleware/msgpack/middleware.go, middleware/protobuf/middleware.go:
-- the function that `Middleware` returns, up to what the formats differ in.
use velaros.Base.{
  Bool, not, ◌&&◌, Option, none, some, [], ◌++◌, Text, codes, text_eq, if◌then◌else◌,
}
use velaros.Base.Maps.{TextMap}
use velaros.Pattern.Parse.{is_empty}
use velaros.Socket.Defs.{Value, Bytes}
use velaros.Context.Defs.{
  Unmarshaler, Marshaller, header, raw_data, set_error, set_message_id, set_message_path,
  set_message_meta, set_message_data, set_message_unmarshaler, set_message_marshaller, Reply, text,
  bytes, Script, ret, next, call,
}

-- The message as it is unpacked; `none` for what Go leaves nil.
pub record Envelope : Type 0 where
  pub id : Text
  pub path : Text
  pub meta : Option (TextMap Value)
  pub message_data : Option Bytes

pub data Unpacked : Type 0 where
  unpacked : Envelope → Unpacked
  unpack_error : Text → Unpacked

-- What a format consists of: its subprotocol, and its functions on bytes and on values.
pub record Format : Type 0 where
  pub subprotocol : Text
  pub unpack : Bytes → Unpacked
  pub unmarshaler : Unmarshaler
  pub marshaller : Marshaller

abbrev pub protocol_header : Text
protocol_header = codes "Sec-WebSocket-Protocol"

abbrev pub unsupported : Text → Text
unsupported protocol = codes "Unsupported WebSocket Subprotocol: " ++ protocol

-- The replies of `Headers().Get` and of `RawData`.
abbrev pub text_of : Reply → Text
text_of (text t) = t
text_of _ = []

abbrev pub bytes_of : Reply → Bytes
bytes_of (bytes b) = b
bytes_of _ = []

abbrev pub fail_with : Text → Script
fail_with e = call (set_error (some e)) (λ _. ret)

abbrev pub set_id : Text → Script → Script
set_id id k = if is_empty id then k else call (set_message_id id) (λ _. k)

abbrev pub set_path : Text → Script → Script
set_path path k = if is_empty path then k else call (set_message_path path) (λ _. k)

abbrev pub set_meta : Option (TextMap Value) → Script → Script
set_meta none k = k
set_meta (some m) k = call (set_message_meta (some m)) (λ _. k)

abbrev pub set_data : Option Bytes → Script → Script
set_data none k = k
set_data (some d) k = call (set_message_data d) (λ _. k)

abbrev pub use_format : Format → Script
use_format f =
    call (set_message_unmarshaler f.unmarshaler)
      (λ _. call (set_message_marshaller f.marshaller) (λ _. next ret))

unfoldable pub use_envelope : Format → Envelope → Script
use_envelope f e =
    set_id e.id (set_path e.path (set_meta e.meta (set_data e.message_data (use_format f))))

-- A message that is no envelope goes on if the client asked for no subprotocol.
abbrev pub on_unpacked : Format → Text → Unpacked → Script
on_unpacked f protocol (unpacked e) = use_envelope f e
on_unpacked f protocol (unpack_error why) = if is_empty protocol then next ret else fail_with why

abbrev pub refuses : Format → Text → Bool
refuses f protocol = not (is_empty protocol) && not (text_eq protocol f.subprotocol)

abbrev pub on_protocol : Format → Text → Script
on_protocol f protocol =
    if refuses f protocol
    then fail_with (unsupported protocol)
    else call raw_data (λ r. on_unpacked f protocol (f.unpack (bytes_of r)))

-- The function that `Middleware` returns.
unfoldable pub middleware : Format → Script
unfolding use_envelope
middleware f = call (header protocol_header) (λ r. on_protocol f (text_of r))
