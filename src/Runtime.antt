-- ===== src/Runtime.antt =====
-- Runtime security: backend/services/runtime-security/src/engine and the models it works on.
pub mod Types
pub mod Rules
pub mod MoreRules
pub mod Engine
pub mod Counting
pub mod Report
pub mod Critical
pub mod Examples
