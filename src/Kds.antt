-- ===== src/Kds.antt =====
-- The kitchen display (apps/kds/app/page.tsx).
pub mod Queue
pub mod Columns
pub mod Frames
pub mod Wire
pub mod Feed
pub mod Subscription
mod Tests
