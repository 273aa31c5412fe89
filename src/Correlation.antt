-- ===== src/Correlation.antt =====
-- The correlation of events into incident chains, services/incident/src/correlation/correlation-engine.ts.
pub mod Events
pub mod Engine
pub mod Buckets
pub mod Causal
pub mod Chains
pub mod Examples
