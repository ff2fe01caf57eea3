-- ===== src/Adapter.antt =====
-- internal/adapter: the envelope of an event, and the stream that carries events to an observer.
pub mod Usage
pub mod Event
pub mod Stream
mod Tests
