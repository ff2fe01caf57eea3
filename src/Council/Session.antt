-- ===== src/Council/Session.antt =====
-- internal/council/domain.go: `Session` and its methods.
pub mod State
pub mod Prompts
pub mod Turns
pub mod Recovery
pub mod Control
pub mod Step
pub mod Change
pub mod Invariant
pub mod History
pub mod Outcomes
pub mod Finality
pub mod Strangers
