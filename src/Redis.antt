-- ===== src/Redis.antt =====
-- The redis module (module_redis.go).
pub mod Session
pub mod Pools
pub mod Sharing
pub mod Commands
pub mod Safety
pub mod Subscriptions
pub mod Subscribers
pub mod Delivery
pub mod Table
pub mod Invariant
pub mod Calls
