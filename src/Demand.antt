-- ===== src/Demand.antt =====
-- The row of `auto_analysis_demands` (platform/api/crashcap_api/models.py), which the scheduler and
-- the demand service share.
use crash_cap.Base.{ℕ, String, Bool, true, false, Option}

pub data DemandState : Type 0 where
  preparing coalescing queued running updated retained needs_review : DemandState
  retry_wait retry_exhausted cannot_recompute paused : DemandState

pub record AnalysisDemand : Type 0 where
  pub id : String
  pub occurrence_id : String
  pub workspace_id : String
  pub inspection_id : Option String
  pub state : DemandState
  pub reason : String
  pub generation : ℕ
  pub retry_attempt : ℕ
  pub change_sequence : ℕ
  pub planned_sequence : ℕ
  pub index_revision : ℕ
  pub first_event_at : Option ℕ
  pub last_event_at : Option ℕ
  pub not_before : Option ℕ
  pub created_at : ℕ
  pub updated_at : ℕ

-- The states that the scheduler picks demands from.
abbrev pub is_waiting : DemandState → Bool
is_waiting preparing = true
is_waiting coalescing = true
is_waiting retry_wait = true
is_waiting _ = false
