-- ===== src/Demands/Tests.antt =====
-- Demands (analysis_demands.py) that change, are restarted and are settled, and the theorems at them.
mod Plans
mod Pages
use crash_cap.Base.{
  ℕ, ◌+◌, ◌<◌, String, ◌≡◌, refl, true, false, ◌||◌, none, some, List, [], ◌∷◌, seconds, arith, ok,
  err,
}
use crash_cap.Base.Table.{row_at}
use crash_cap.Demand.{AnalysisDemand, DemandState, is_waiting, retry_exhausted}
use crash_cap.Evidence.Decision.{ComparisonDecision}
use crash_cap.Scheduler.Ranking.{eligible, is_due}
use crash_cap.Demands.Rows.{
  DumpBlob, Occurrence, Tables, stale_demand, live, demand_at, occurrence_at, blob_at,
}
use crash_cap.Demands.Changes.{
  Switches, is_held, restartable, restarted, restart_exhausted_demand, note_change, coalesced,
}
use crash_cap.Demands.Changes.Coalescing.{note_changes, note_changes-due}
use crash_cap.Demands.Changes.Restarts.{restart_exhausted_demand-closes}
use crash_cap.Demands.Settlement.{
  RetrySettings, retried, retry_delay, planning_failed, settle_runtime_failure, pending_change,
  settle_demand_after_execution_failure, compared, settle_demand_after_comparison,
  restore_pending_change,
}
use crash_cap.Demands.Settlement.Budget.{
  Settled, planning, execution, comparison, settle, waits, waits-lt,
}
use crash_cap.Demands.Settlement.Pending.{failure, end_analysis, noted_change-eligible}

abbrev pub dump : DumpBlob
dump = record {
  id = "b";
  workspace_id = "w";
  sha256 = "d";
  size = 7;
  verification_status = "ACCEPTED";
  expires_at = some 900000000;
  deleted_at = none;
}

abbrev pub crash : Occurrence
crash = record { id = "o"; workspace_id = "w"; dump_blob_id = "b" }

abbrev pub demand : DemandState → ℕ → AnalysisDemand
demand s attempt = record {
  id = "a";
  occurrence_id = "o";
  workspace_id = "w";
  inspection_id = none;
  state = s;
  reason = "symbol_refresh";
  generation = 2;
  retry_attempt = attempt;
  change_sequence = 4;
  planned_sequence = 4;
  index_revision = 1;
  first_event_at = none;
  last_event_at = none;
  not_before = none;
  created_at = 1;
  updated_at = 2;
}

abbrev pub settings : RetrySettings
settings = record { max_attempts = 3; retry_base_seconds = 30; retry_max_seconds = 600 }

-- Changes every 20 seconds, while a Run holds the demand.
abbrev later_changes : List (String × ℕ)
later_changes =
    ("symbol_refresh", 30000000) ∷ ("role_change", 50000000) ∷ ("symbol_refresh", 69000000) ∷ []

abbrev after_changes : AnalysisDemand
after_changes =
    note_changes dump (("symbol_refresh", 10000000) ∷ later_changes) (demand DemandState.running 0)

after_changes_due : after_changes.not_before ≡ some 70000000
unfolding note_changes note_change coalesced live
after_changes_due = refl

pub live_at_changes : (t : ℕ) → t < 900000000 → live dump t ≡ true
unfolding live
live_at_changes t h = ground (arith, h)

note_changes-due_example :
    (is_due after_changes.not_before (10000000 + seconds 60) ≡ true)
    × ((is_waiting after_changes.state || is_held after_changes.state) ≡ true)
note_changes-due_example =
    note_changes-due dump "symbol_refresh" 10000000 later_changes (demand DemandState.running 0)
      (omega arith) refl
      (
        live_at_changes 10000000 (omega arith),
        (
          live_at_changes 30000000 (omega arith),
          (live_at_changes 50000000 (omega arith), (live_at_changes 69000000 (omega arith), tt)),
        ),
      )

noted_change-eligible_example :
    eligible [] 45000000 (
      end_analysis settings dump
        (failure "symbol_refresh" "TIMEOUT" true)
        20000000
        (note_change "role_change" dump 10000000 (demand DemandState.running 0)))
    ≡ true
unfolding row_at
noted_change-eligible_example =
    noted_change-eligible settings dump "role_change" 10000000
      (failure "symbol_refresh" "TIMEOUT" true) 20000000 (demand DemandState.running 0) [] 45000000
      (live_at_changes 10000000 (omega arith)) (live_at_changes 20000000 (omega arith))
      (omega arith) (omega arith) (omega arith) refl

abbrev pub compared_again : ComparisonDecision
compared_again = record {
  current_run_id = some "r1";
  candidate_run_id = "r2";
  decision = "retain";
  reason = "business_transient_loss";
  retry = true;
  differences = [];
  audit_id = none;
  audit_sha256 = none;
}

abbrev pub failures : List Settled
failures =
    planning (some dump) "symbol_refresh" "INDEX_LOCKED" 10000000
    ∷ execution dump "symbol_refresh" "TIMEOUT" true 20000000
    ∷ comparison dump compared_again false 30000000
    ∷ execution dump "symbol_refresh" "TIMEOUT" true 40000000
    ∷ []

-- Two retries, then no more.
waits_twice : waits settings failures (demand DemandState.running 0) ≡ 2
unfolding waits settle planning_failed settle_runtime_failure settle_demand_after_execution_failure
    settle_demand_after_comparison compared restore_pending_change pending_change retried
    retry_delay live
waits_twice = refl

waits-lt_example :
    waits settings failures (demand DemandState.running 0)
      + (demand DemandState.running 0).retry_attempt
    < settings.max_attempts
waits-lt_example = waits-lt settings failures (demand DemandState.running 0) (omega arith)

abbrev switches : Switches
switches = record { enabled = true; paused = false }

abbrev pub tables : Tables
tables = record {
  occurrences = crash ∷ [];
  blobs = dump ∷ [];
  demands = demand retry_exhausted 3 ∷ [];
  inspections = [];
  targets = [];
  revision = 1;
}

granted :
    (restart_exhausted_demand switches "a" "w" 2 4 10000000 tables).0
    ≡ ok (record (demand retry_exhausted 3) {
      state = DemandState.preparing;
      reason = "manual";
      change_sequence = 5;
      not_before = some 10000000;
      updated_at = 10000000;
    })
unfolding restart_exhausted_demand restarted restartable demand_at occurrence_at blob_at row_at live
granted = refl
