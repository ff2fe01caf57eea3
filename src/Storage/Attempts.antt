-- ===== src/Storage/Attempts.antt =====
-- internal/storage: the ledgers of attempts that the adapters keep beside the tables of the council.
pub mod Tables
pub mod Agy
pub mod Claude
mod Tests
