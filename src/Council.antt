-- ===== src/Council.antt =====
-- internal/council/domain.go: the contributors, the ballots and the sessions of a council.
pub mod Contributor
pub mod Ballot
pub mod Status
pub mod Session
mod Tests
