-- ===== src/Demands.antt =====
-- The demands of automatic analysis: platform/api/crashcap_api/services/analysis_demands.py. The
-- children hold the rows that the service reads, what a change does to a demand, how planning and
-- analyses are settled, and how a plan becomes the target of a demand.
pub mod Rows
pub mod Changes
pub mod Settlement
pub mod Targets
pub mod History
pub mod Fanout
pub mod Inspections
mod Tests
