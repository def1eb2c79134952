-- ===== src/Scheduler.antt =====
-- The fair capacity control of automatic analysis:
-- platform/api/crashcap_api/services/analysis_scheduler.py. The children follow the file: the slots
-- and their leases, the ranking of the waiting demands, the rounds that hand out slots, and
-- `claim_execution_slots`, which puts them together.
pub mod Slots
pub mod Ranking
pub mod Rounds
pub mod Claiming
mod Tests
