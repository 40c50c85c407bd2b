-- ===== src/Console.antt =====
-- The console as a whole: its main process behind the IPC channels, and the views in front of them
-- (apps/console/src/main/index.ts, apps/console/src/preload/index.ts, apps/console/src/renderer).
pub mod Schema
pub mod Inputs
pub mod Database
pub mod Main
pub mod Sound
pub mod History
pub mod Bridge
pub mod View
pub mod Reconciliation
pub mod Terminal
pub mod FrontDesk
pub mod Store
pub mod Rooms
pub mod Palette
pub mod Toasts
mod Tests
pub mod Panels
pub mod Boot
