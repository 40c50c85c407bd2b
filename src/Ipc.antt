-- ===== src/Ipc.antt =====
-- The calls from the renderer to the main process of the console.
pub mod Wrap
