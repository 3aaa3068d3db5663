-- ===== src/Http.antt =====
-- crates/breeze-http: the server's routes.
pub mod Timers
pub mod Routing
pub mod Admission
pub mod Tests
