-- ===== src/Triage.antt =====
-- Finding triage of the agent service: backend/services/agent/src/agents/triage.ts.
pub mod Heuristic
pub mod Refine
pub mod Laws
pub mod Examples
