-- ===== src/Conversation.antt =====
-- Messages with one id on one connection, each in a goroutine of its own: the lock of the id, and
-- the receivers of multi-message conversations. `System` has the steps, `Owners` who owns the
-- id, `Invariant` and `Live` what the steps keep, `Exclusion`, `Wake`, and `Entering` what
-- follows.
pub mod System
pub mod Owners
pub mod Invariant
pub mod Exclusion
pub mod Wake
pub mod Live
pub mod Entering
