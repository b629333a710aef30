-- ===== src/Aggregator.antt =====
-- The equity snapshot aggregator.
pub mod Data
pub mod Symbols
pub mod Breakdown
pub mod Balances
pub mod Rounding
pub mod Snapshots
pub mod Tests
