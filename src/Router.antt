-- ===== src/Router.antt =====
-- router.go: a router's registrations. `Defs` has the state, `Ops` the operations, `Calls` their
-- sequences, `Preserve` what the loop of `bind` keeps, `Descriptors` the list of public routes,
-- `Appending` what `bind` does to the chain of messages, `Accepts` which
-- registrations panic, `Served` the handlers that a path reaches, `Valid` what the checks of `bind` make sure of, `Finding` what `Lookup` finds,
-- `Json` the JSON form of a descriptor.
pub mod Defs
pub mod Ops
pub mod Calls
pub mod Preserve
pub mod Descriptors
pub mod Appending
pub mod Accepts
pub mod Taking
pub mod Served
pub mod Typed
pub mod Valid
pub mod Finding
pub mod Json
