-- ===== src/EventStore.antt =====
-- The event log of a company (modules/event_store/store.py).
pub mod Store
pub mod Streams
pub mod Order
pub mod Tailing
mod Tests
