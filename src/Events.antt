-- ===== src/Events.antt =====
-- The domain events (packages/events/src).
pub mod Registry
pub mod Emitter
