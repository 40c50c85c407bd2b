-- ===== src/Pms.antt =====
-- The property management store of the console (apps/console/src/main/pms.ts): the point of sale
-- behind its barrier, the front desk board and the housekeeping tasks.
pub mod Row
pub mod Barrier
pub mod Charge
pub mod Guarded
pub mod Effects
pub mod Board
pub mod Listing
mod Tests
