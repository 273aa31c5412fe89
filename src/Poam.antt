-- ===== src/Poam.antt =====
-- POA&M items of the compliance service: backend/services/compliance/src/poam and the audit
-- records of backend/services/compliance/src/observability/audit.ts.
pub mod Types
pub mod Repository
pub mod World
pub mod Audit
pub mod Names
pub mod Items
pub mod Lifecycle
pub mod Service
pub mod Examples
