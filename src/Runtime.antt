-- ===== src/Runtime.antt =====
-- The reference runtime of the v3 platform (enterprise_maturity/v3_runtime): the message queue, the
-- service registry, the gateway in front of it, the autoscaler, the crawler coordinator and the
-- render scheduler.
pub mod Queue
mod Tests
pub mod Discovery
pub mod Gateway
pub mod Autoscaling
pub mod Gpu
pub mod Crawler
pub mod Canary
pub mod Planning
pub mod Healing
pub mod Platform
