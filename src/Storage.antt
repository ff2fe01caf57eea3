-- ===== src/Storage.antt =====
-- internal/storage: the durable state of the service and its transitions.
pub mod Rows
pub mod Journal
pub mod Authority
pub mod Authorized
pub mod Commands
pub mod Prompts
pub mod Release
pub mod Cancel
pub mod Terminal
pub mod HostLoss
pub mod Reconcile
pub mod Control
pub mod Dispatch
pub mod Observed
pub mod Step
pub mod Replay
pub mod Sessions
pub mod Grants
pub mod Create
pub mod Lifetime
mod Tests
pub mod Attempts
