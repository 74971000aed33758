-- ===== src/Maturity/Resilience.antt =====
-- enterprise_maturity/resilience.py. A function that is passed in may change the world around it and
-- may raise: it takes the world, and returns its outcome and the world after it.
pub mod Retry
pub mod Breaker
pub mod Idempotency
