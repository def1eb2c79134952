-- ===== src/Demands/Settlement.antt =====
-- How planning and analyses are settled (analysis_demands.py).
pub mod Budget
pub mod Pending
use Prim.Native.String.{◌++◌}
use crash_cap.Base.{
  ℕ, ◌+◌, ◌*◌, ◌^◌, min, String, Bool, true, false, not, ◌&&◌, Option, none, some, is_some, or_else,
  if◌then◌else◌, seconds, leb, ltb, Result, ok, err,
}
use crash_cap.Base.Keys.{◌==◌, text_keys}
use crash_cap.Demand.{
  AnalysisDemand, DemandState, retry_wait, retry_exhausted, needs_review, cannot_recompute, updated,
  retained, coalescing,
}
use crash_cap.Evidence.Decision.{ComparisonDecision}
use crash_cap.Demands.Rows.{
  DumpBlob, Occurrence, Tables, DemandError, Change, live, demand_at, occurrence_at, blob_at,
  save_demand,
}

-- The settings that a settlement reads, less their prefix `analysis_`.
pub record RetrySettings : Type 0 where
  pub max_attempts : ℕ
  pub retry_base_seconds : ℕ
  pub retry_max_seconds : ℕ

unfoldable pub retry_delay : RetrySettings → ℕ → ℕ
retry_delay s attempt = min s.retry_max_seconds (s.retry_base_seconds * 2 ^ attempt)

abbrev pub lost_dump : AnalysisDemand → AnalysisDemand
lost_dump d = record d { state = cannot_recompute; reason = "DUMP_UNAVAILABLE"; not_before = none }

-- The next attempt, or the end of the budget.
unfoldable pub retried : String → String → RetrySettings → ℕ → AnalysisDemand → AnalysisDemand
unfolding retry_delay
retried again spent s now d =
    if leb s.max_attempts (d.retry_attempt + 1)
    then record d { state = retry_exhausted; reason = spent; not_before = none }
    else record d {
      retry_attempt = d.retry_attempt + 1;
      state = retry_wait;
      reason = again;
      not_before = some (now + seconds (retry_delay s d.retry_attempt));
    }

abbrev labelled : String → String → String → String
labelled head cause code = head ++ (cause ++ (":" ++ code))

-- _settle_runtime_failure
unfoldable pub settle_runtime_failure :
    DumpBlob → String → String → String → Bool → RetrySettings → ℕ → AnalysisDemand → AnalysisDemand
settle_runtime_failure blob cause code phase retryable s now d =
    if not (live blob now)
    then lost_dump d
    else if not retryable
    then record d {
      state = needs_review;
      reason = labelled (phase ++ "_failed:") cause code;
      not_before = none;
    }
    else retried (labelled (phase ++ "_retry:") cause code)
        (labelled (phase ++ "_retry_exhausted:") cause code) s now d

-- _pending_change
abbrev pub Pending : Type 0
Pending = Option (String × Option ℕ)

unfoldable pub pending_change : AnalysisDemand → Pending
pending_change d =
    if ltb 0 d.generation && ltb d.planned_sequence d.change_sequence && is_some d.first_event_at
    then some (d.reason, d.not_before)
    else none

-- _restore_pending_change
unfoldable pub restore_pending_change : DumpBlob → Pending → ℕ → AnalysisDemand → AnalysisDemand
restore_pending_change blob none now d = d
restore_pending_change blob (some (reason, at)) now d =
    if live blob now
    then record d { state = coalescing; reason = reason; not_before = some (or_else at now) }
    else d

abbrev pub stamped : ℕ → AnalysisDemand → AnalysisDemand
stamped now d = record d { updated_at = now }

-- `none` is an occurrence or a dump that is gone.
unfoldable pub planning_failed :
    Option DumpBlob → String → String → RetrySettings → ℕ → AnalysisDemand → AnalysisDemand
planning_failed none cause code s now d = stamped now (lost_dump d)
planning_failed (some blob) cause code s now d =
    stamped now (settle_runtime_failure blob cause code "planning" true s now d)

-- The dump of the occurrence of a demand, if both are there.
abbrev blob_of : Option Occurrence → Tables → Option DumpBlob
blob_of none db = none
blob_of (some o) db = blob_at o.dump_blob_id db

planning_settled :
    Result DemandError AnalysisDemand → String → String → RetrySettings → ℕ → Tables → Change
unfolding planning_failed
planning_settled (err e) cause code s now db = (err e, db)
planning_settled (ok d) cause code s now db =
    let d' = planning_failed (blob_of (occurrence_at d.occurrence_id db) db) cause code s now d in
    (ok d', save_demand d' db)

unfoldable pub settle_demand_after_planning_failure :
    String → String → String → RetrySettings → ℕ → Tables → Change
unfolding planning_settled
settle_demand_after_planning_failure id cause code s now db =
    planning_settled (demand_at id db) cause code s now db

unfoldable pub settle_demand_after_execution_failure :
    DumpBlob → String → String → Bool → RetrySettings → ℕ → AnalysisDemand → AnalysisDemand
settle_demand_after_execution_failure blob cause code retryable s now d = stamped now (
    restore_pending_change blob (pending_change d) now
      (settle_runtime_failure blob cause code "execution" retryable s now d))

-- A comparison that asks for no retry.
abbrev concluded : ComparisonDecision → Bool → AnalysisDemand → AnalysisDemand
concluded v promoted d = record d {
  state =
      if promoted then updated else if v.decision == "incomparable" then needs_review else retained;
  reason = v.reason;
  not_before = none;
}

-- The outcome before a pending change is restored.
unfoldable pub compared :
    DumpBlob → ComparisonDecision → Bool → RetrySettings → ℕ → AnalysisDemand → AnalysisDemand
compared blob v promoted s now d =
    if v.retry
    then if not (live blob now)
      then lost_dump d
      else retried ("retry:" ++ v.reason) ("retry_exhausted:" ++ v.reason) s now d
    else concluded v promoted d

unfoldable pub settle_demand_after_comparison :
    DumpBlob → ComparisonDecision → Bool → RetrySettings → ℕ → AnalysisDemand → AnalysisDemand
settle_demand_after_comparison blob v promoted s now d =
    stamped now
      (restore_pending_change blob (pending_change d) now (compared blob v promoted s now d))
