-- ===== src/Broker.antt =====
-- The local broker of the console (apps/console/src/main/server.ts).
pub mod Bus
pub mod Limiter
pub mod Window
pub mod Guard
pub mod Packet
pub mod Stream
pub mod Written
pub mod Once
pub mod Answers
pub mod Rate
pub mod Delivery
pub mod Streams
mod Tests
