-- ===== src/Approvals.antt =====
-- The approval queue (modules/approvals).
pub mod Model
pub mod Service
pub mod Decide
pub mod Timeouts
pub mod Invariant
pub mod Preserve
pub mod Expiry
pub mod Lifecycle
pub mod Protocol
pub mod Lists
mod Tests
