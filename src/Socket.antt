-- ===== src/Socket.antt =====
-- socket.go: the state of one connection. `Defs` has the state, `Ops` the operations,
-- `Closing` what `Close` does, `Receivers` what the operations keep of the receivers.
pub mod Defs
pub mod Ops
pub mod Closing
pub mod Receivers
pub mod View
