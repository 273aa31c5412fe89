-- ===== src/Bus.antt =====
-- The Redis Streams event bus: backend/packages/shared/src/events/redis.ts.
pub mod Redis
pub mod Entry
pub mod Loop
pub mod Delivery
pub mod Termination
pub mod Settling
pub mod Examples
