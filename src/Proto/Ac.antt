-- ===== src/Proto/Ac.antt =====
-- crates/breeze-proto/src/ac: what an air conditioner is told and what it reports.
pub mod Types
pub mod Response
pub mod Command
pub mod Capabilities
pub mod Degrees
