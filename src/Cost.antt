-- ===== src/Cost.antt =====
-- The budget of a company (modules/cost).
pub mod Model
pub mod Budget
pub mod Spending
pub mod Thresholds
pub mod Bounds
pub mod Ledger
pub mod Exhausted
pub mod Subscriptions
pub mod Renewals
pub mod Turnover
pub mod DayTick
mod SubscriptionTests
mod Tests
