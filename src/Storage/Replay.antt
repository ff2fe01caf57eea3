-- ===== src/Storage/Replay.antt =====
-- Operation ids of internal/storage: the journal only grows, a committed command is answered with
-- its first receipt, and an id that was used for another command is refused.
pub mod Requests
pub mod Shape
pub mod Commit
pub mod Growth
pub mod Laws
pub mod Releases
