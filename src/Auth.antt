-- ===== src/Auth.antt =====
-- crates/breeze-auth: who may talk to the server.
pub mod Clock
pub mod Nonce
pub mod Reject
pub mod Signing
pub mod Net
pub mod Verify
pub mod Enroll
pub mod Tests
