-- ===== src/Tax.antt =====
-- The tax engine (packages/shared/src/tax/index.ts).
pub mod Engine
mod Tests
