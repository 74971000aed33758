-- ===== src/Exchange.antt =====
-- services/exchange/src: signed orders, matched by price and time. Floats are a parameter, since the
-- code's prices, quantities and times are floats.
pub mod Floats
pub mod Heap
pub mod Book
pub mod Limits
pub mod Orders
mod Tests
