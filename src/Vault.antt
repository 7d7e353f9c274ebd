-- ===== src/Vault.antt =====
-- vault: the operations that a caller makes of a vault. Here those on conversations.
pub mod Desk
pub mod Request
pub mod Session
pub mod Rebuild
mod Tests
