-- ===== src/Service.antt =====
-- internal/service: the coordinator of workers, observers and controllers.
pub mod Coordinator
mod Tests
