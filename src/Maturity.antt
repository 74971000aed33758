-- ===== src/Maturity.antt =====
-- The building blocks of enterprise_maturity: resilience, performance, security, governance and
-- operations.
pub mod Resilience
pub mod Blueprint
pub mod Admission
pub mod GoToMarket
pub mod FullUpgrade
pub mod Security
pub mod Scaling
pub mod Operations
pub mod Roadmap
mod Tests
