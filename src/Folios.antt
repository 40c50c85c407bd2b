-- ===== src/Folios.antt =====
-- The folio ledger service (packages/database/src/ledger.ts): charges, reversals, transfers between
-- folios and the night audit.
pub mod Row
pub mod Service
pub mod Transfer
pub mod Closing
pub mod Balance
pub mod Items
pub mod Closed
pub mod Moving
mod Tests
