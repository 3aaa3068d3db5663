-- ===== src/Store.antt =====
-- crates/breeze-store: the documents the server keeps and the operations on them.
pub mod Devices
pub mod Control
pub mod Config
pub mod Timers
pub mod Programs
pub mod Tests
