-- ===== src/Tasks.antt =====
-- The durable hand-over of tasks: platform/api/crashcap_api/task_handoff.py. The children follow
-- the file: the messages and their contract, the rows of the two tables, the creation of intents,
-- the execution claims of the workers, and the outbox relay.
pub mod Message
pub mod Rows
pub mod Intents
pub mod Claims
pub mod Relay
pub mod History
pub mod Tests
