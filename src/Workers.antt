-- ===== src/Workers.antt =====
-- The workers of platform/worker/crashcap_worker that act on the tables of the hand-over.
pub mod Publish
pub mod Outbox
pub mod Leases
mod Tests
