-- ===== src/Connection.antt =====
-- socket.go and router.go: the life of one connection. `Message` has what runs for one message and
-- for the open and close chains, `Reading` the loop that reads messages, `Ping` the liveness check,
-- `Serving` the whole of `HandleConnection`, `Locks` what becomes of the locks of message ids,
-- `Settling` messages at any router that registrations build, `Dispatch` a message from its bytes to
-- its handlers and `Registered` from the registrations on, `Undisturbed` the lock of an id that is
-- taken and given back.
pub mod Message
pub mod Reading
pub mod Ping
pub mod Serving
pub mod Locks
pub mod Mounted
pub mod Settling
pub mod Dispatch
pub mod Registered
pub mod Undisturbed
