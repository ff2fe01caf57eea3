-- ===== src/Storage/Sessions.antt =====
-- internal/storage: what its transitions keep true of the rows of a session.
pub mod Change
pub mod Moves
pub mod Transitions
pub mod Invariant
pub mod History
