-- ===== src/Channels.antt =====
-- The channel adapters (packages/channels/src).
pub mod Adapter
pub mod Prices
mod Tests
