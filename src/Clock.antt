-- ===== src/Clock.antt =====
-- The clock of a company (modules/clock).
pub mod Model
pub mod Pause
pub mod Time
pub mod Freeze
pub mod Days
pub mod Restart
mod Tests
