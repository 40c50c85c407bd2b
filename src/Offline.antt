-- ===== src/Offline.antt =====
-- The offline queue of the desktop console: the SQLite store of pending actions
-- (apps/console/src/main/offline/store.ts) and the engine that delivers them
-- (apps/console/src/main/offline/sync.ts).
pub mod Action
pub mod Store
pub mod Sync
mod Tests
