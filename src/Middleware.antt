-- ===== src/Middleware.antt =====
-- The packages under middleware: `Envelope` has what the three formats share, `Json` (JSON and
-- MessagePack, whose code is the same) and `Protobuf` the formats, `Values` the packages that set
-- values. `Unpacking`, `Sending`, `Replying` and `ProtoReplying` are about incoming messages, with
-- what is to become of them in `Handled`, and about replies.
pub mod Envelope
pub mod Handled
pub mod Unpacking
pub mod Json
pub mod Protobuf
pub mod Values
pub mod Sending
pub mod Replying
pub mod ProtoReplying
