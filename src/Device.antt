-- ===== src/Device.antt =====
-- crates/breeze-device: talking to the units.
pub mod Error
pub mod Session
pub mod Connection
pub mod Change
pub mod Control
pub mod Tests
