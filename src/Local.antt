-- ===== src/Local.antt =====
-- local: the tables that a device keeps in its database.
pub mod Slabs
pub mod Queue
pub mod Sessions
pub mod Tags
mod Tests
