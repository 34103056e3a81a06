-- ===== src/Store.antt =====
-- Package store (internal/store) over the tables of migrations/001 to 003, and the world that the
-- stores, the caches and the handlers act on.
pub mod Pool
pub mod Tables
pub mod World
pub mod Columns
pub mod Rows
pub mod Scan
pub mod Trades
pub mod Analytics
pub mod Metrics
pub mod MetricsQueries
pub mod Sessions
pub mod Users
pub mod Evidence
