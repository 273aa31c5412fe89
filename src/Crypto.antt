-- ===== src/Crypto.antt =====
-- The encryption of stored secrets, packages/shared/src/crypto/index.ts.
pub mod Splitting
pub mod Keyring
pub mod Secret
pub mod Parsing
pub mod RoundTrip
pub mod Parsed
pub mod Examples
