-- ===== src/Evidence.antt =====
-- The evidence attacher of the compliance service: services/compliance/src/evidence.
pub mod World
pub mod Scan
pub mod Attacher
pub mod Attach
pub mod Keeps
pub mod Redelivery
pub mod Twice
pub mod Lost
pub mod Examples
