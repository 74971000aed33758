-- ===== src/Runtime/Tests.antt =====
-- Runs of the runtime's components at concrete inputs.
mod Messaging
mod Scheduling
mod Delivery
mod Pipeline
