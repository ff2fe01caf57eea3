-- ===== src/Storage/Grants.antt =====
-- internal/storage/controller_leases.go and controller_attachment.go: the grants of a run's
-- controller and the episodes of its connection.
pub mod Install
pub mod Adopt
pub mod Revoke
pub mod Attachment
pub mod Leases
pub mod Fencing
pub mod Revocation
pub mod Episodes
