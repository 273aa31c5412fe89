-- ===== src/Auth.antt =====
-- Access tokens: packages/shared/src/auth/index.ts, and services/auth/src/services/token.service.ts.
pub mod Base64
pub mod Token
pub mod Accepts
pub mod Hook
pub mod Refresh
pub mod Rotation
pub mod Examples
