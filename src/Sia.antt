-- ===== src/Sia.antt =====
-- sia: the boundary to the storage network.
pub mod Names
pub mod Walk
pub mod Upload
pub mod Reader
pub mod Envelope
pub mod Location
mod Tests
