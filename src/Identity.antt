-- ===== src/Identity.antt =====
-- The org chart of a company (modules/identity).
pub mod Model
pub mod Reason
pub mod Queries
pub mod Hire
pub mod Reassign
pub mod Chart
pub mod Invariant
pub mod Growing
pub mod Hiring
pub mod Moving
pub mod Reassigning
pub mod Firing
pub mod Offboarding
mod Tests
pub mod Fire
