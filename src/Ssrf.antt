-- ===== src/Ssrf.antt =====
-- The SSRF guard for cluster URLs: backend/services/kubernetes/src/ssrf-guard.ts.
pub mod Classify
pub mod Check
pub mod Policy
pub mod Octets
pub mod Dotted
pub mod Examples
