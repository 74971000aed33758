-- ===== src/Arbitrage.antt =====
-- services/arbitrage-engine/src, with the store that it keeps in memory: products whose prices differ
-- between sources, and the daily publishing of their videos.
pub mod Queue
pub mod Publishing
pub mod Market
pub mod Api
mod Tests
