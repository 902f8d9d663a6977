-- ===== src/Connector.antt =====
-- The gates of the connector (modules/connector): the allow list and the rate limiter of a service.
pub mod Allowlist
pub mod RateLimit
mod Tests
