-- ===== src/Inventory.antt =====
-- The inventory service (packages/database/src/inventory.ts). A transaction locks its row and runs
-- at isolation level Serializable, so each is one function on the tables.
pub mod Rooms
pub mod Channels
mod Tests
