-- ===== src/Orchestrator.antt =====
-- The orchestrator (modules/orchestrator): the rate limiter of `send`.
pub mod Model
pub mod Queue
pub mod LoopDetector
pub mod RateLimit
pub mod State
pub mod Send
pub mod Dispatch
pub mod Turns
pub mod Draining
pub mod Sending
pub mod Health
pub mod Scores
pub mod IdleSweep
pub mod Notices
pub mod Nudges
pub mod Burst
mod Tests
mod RoutingTests
