-- ===== src/Payment.antt =====
-- services/payment: requests to the payment platform behind a circuit that all of them share.
pub mod Circuit
pub mod Adapter
pub mod Webhook
mod Tests
