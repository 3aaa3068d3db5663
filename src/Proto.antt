-- ===== src/Proto.antt =====
-- crates/breeze-proto: the wire formats.
pub mod Frame
pub mod Security
pub mod Packet
pub mod Lan
pub mod Layers
pub mod Crc8
pub mod Ac
pub mod Tests
