-- ===== src/Context/Termination.antt =====
-- Calls of `Next` nest no deeper than the handlers that are left, so the fuel can be computed.
pub mod Weight
pub mod Reachable
pub mod Ops
pub mod Step
pub mod Call
