-- ===== src/Hardware.antt =====
-- The bridge to the door-lock encoders (apps/console/src/main/hardware/lockBridge.ts).
pub mod Breaker
pub mod Channel
pub mod Bridge
mod Tests
