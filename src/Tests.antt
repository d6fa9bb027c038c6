-- ===== src/Tests.antt =====
-- Runs of the model at concrete inputs, and the theorems at inputs that meet their hypotheses.
mod Fixtures
mod Patterns
mod Chains
mod Conversations
mod Routers
mod Connections
mod Dispatch
mod Middleware
mod Sharing
mod Json
mod Proto
mod Sockets
mod Http
