-- ===== src/Federation.antt =====
-- services/federation/src/main.py and services/scheduler/src/main.py: the registry of nodes, the signed
-- tokens that both sides share, and the assignment of tasks to nodes.
pub mod Tokens
pub mod Registry
pub mod Scheduler
mod Tests
