-- ===== src/InterCompany.antt =====
-- The links between companies (modules/board_api/links.py) and the messages that go over them
-- (modules/inter_company).
pub mod Model
pub mod Links
pub mod Sanitize
pub mod Rate
pub mod Service
pub mod Pending
pub mod Attempts
pub mod Flushing
pub mod Stuck
pub mod Handing
pub mod Routing
mod Tests
