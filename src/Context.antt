-- ===== src/Context.antt =====
-- context.go, context_next.go and handler_node.go: message contexts and the handler chain.
-- `Defs` has the data, `Calls` and `Ops` the methods that handlers call, `Sub` sub-contexts,
-- `Chain` the walk of the chain, `Next` the function `Next`. The others have what follows.
pub mod Defs
pub mod Calls
pub mod Ops
pub mod Sub
pub mod Utils
pub mod Chain
pub mod Next
pub mod Order
pub mod Bounds
pub mod Termination
pub mod Layers
pub mod Recovery
pub mod Closing
pub mod Again
pub mod Nesting
pub mod Listening
pub mod Receiving
pub mod Expiring
pub mod Sharing
pub mod Receivers
