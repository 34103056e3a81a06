-- ===== src/Cache.antt =====
-- Package cache (internal/cache): what the program stores in Redis, and under which keys.
pub mod LastLoss
pub mod Metrics
pub mod Window
pub mod Stream
pub mod Group
pub mod Client
