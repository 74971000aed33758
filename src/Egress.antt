-- ===== src/Egress.antt =====
-- services/network-egress/src/client.py: the HTTP client of the services, which refuses internal
-- targets and tries again when a server fails.
pub mod Url
pub mod Client
mod Tests
