-- ===== src/Payments.antt =====
-- The local payment ledger of the console: intents, confirmations and their matching
-- (the `mpesa_ledger` part of apps/console/src/main/offline/store.ts).
pub mod Row
pub mod Ledger
pub mod Insert
pub mod Intents
pub mod Reach
pub mod Rows
pub mod Sums
pub mod Matching
mod Tests
