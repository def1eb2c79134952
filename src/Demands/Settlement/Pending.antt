-- ===== src/Demands/Settlement/Pending.antt =====
-- A change that arrives while an analysis runs is not lost (analysis_demands.py), and the scheduler
-- (analysis_scheduler.py) takes it up.
use crash_cap.Base.{
  ℕ, ◌+◌, ◌≤◌, ◌<◌, String, ◌≡◌, refl, Bool, true, none, some, List, ltb, seconds, min, ap, ◌∙◌,
  lt→ltb, arith,
}
use crash_cap.Base.Keys.{text_keys}
use crash_cap.Base.Table.{row_at}
use crash_cap.Demand.{AnalysisDemand}
use crash_cap.Evidence.Decision.{ComparisonDecision}
use crash_cap.Demands.Rows.{DumpBlob, live}
use crash_cap.Demands.Changes.{coalesced, note_change, first_event}
use crash_cap.Demands.Settlement.{
  RetrySettings, settle_runtime_failure, pending_change, restore_pending_change,
  settle_demand_after_execution_failure, compared, settle_demand_after_comparison, retried, stamped,
}
use crash_cap.Scheduler.Slots.{Slot, slot_key}
use crash_cap.Scheduler.Ranking.{eligible}

-- How an analysis of a demand ends.
pub data Ending : Type 0 where
  failure : String → String → Bool → Ending
  comparison : ComparisonDecision → Bool → Ending

unfoldable pub end_analysis :
    RetrySettings → DumpBlob → Ending → ℕ → AnalysisDemand → AnalysisDemand
end_analysis s blob (failure cause code retryable) now d =
    settle_demand_after_execution_failure blob cause code retryable s now d
end_analysis s blob (comparison v promoted) now d =
    settle_demand_after_comparison blob v promoted s now d

-- A demand that has been analysed before takes note of a change.
pending_change-note_change :
    (cause : String) (blob : DumpBlob) (t : ℕ) (d : AnalysisDemand)
    → live blob t ≡ true
    → 0 < d.generation
    → d.planned_sequence ≤ d.change_sequence
    → pending_change (note_change cause blob t d)
      ≡ some (cause, some (min (t + seconds 30) (first_event d t + seconds 60)))
unfolding pending_change note_change coalesced
pending_change-note_change cause blob t d l g p =
    let new : ltb d.planned_sequence (d.change_sequence + 1) ≡ true =
      lt→ltb _ _ (omega (arith, p)) in
    let has = lt→ltb 0 d.generation g in rw (l, has, new, has) refl

settle_runtime_failure-id :
    (blob : DumpBlob) (cause code phase : String) (retryable : Bool) (s : RetrySettings) (now : ℕ)
    (d : AnalysisDemand)
    → (settle_runtime_failure blob cause code phase retryable s now d).id ≡ d.id
unfolding settle_runtime_failure retried
settle_runtime_failure-id blob cause code phase retryable s now d = ground arith

compared-id :
    (blob : DumpBlob) (v : ComparisonDecision) (promoted : Bool) (s : RetrySettings) (now : ℕ)
    (d : AnalysisDemand)
    → (compared blob v promoted s now d).id ≡ d.id
unfolding compared retried
compared-id blob v promoted s now d = ground arith

note_change-id :
    (cause : String) (blob : DumpBlob) (t : ℕ) (d : AnalysisDemand)
    → (note_change cause blob t d).id ≡ d.id
unfolding note_change coalesced
note_change-id cause blob t d = ground arith

-- A demand with a change that is due is eligible.
restored-eligible :
    (slots : List Slot) (blob : DumpBlob) (reason : String) (t now later : ℕ) (d : AnalysisDemand)
    → live blob now ≡ true
    → t ≤ later
    → row_at slot_key d.id slots ≡ none
    → eligible slots later (stamped now (restore_pending_change blob (some (reason, some t)) now d))
      ≡ true
unfolding eligible restore_pending_change
restored-eligible slots blob reason t now later d l h n = rw (l, n) (ground (arith, h))

-- A change that arrives while an analysis runs is not lost: however the analysis ends, from 30 seconds
-- after the change on the scheduler may give the demand a slot, if it has none and its dump is there.
pub noted_change-eligible :
    (s : RetrySettings) (blob : DumpBlob) (cause : String) (t : ℕ) (e : Ending) (now : ℕ)
    (d : AnalysisDemand) (slots : List Slot) (later : ℕ)
    → live blob t ≡ true
    → live blob now ≡ true
    → 0 < d.generation
    → d.planned_sequence ≤ d.change_sequence
    → t + seconds 30 ≤ later
    → row_at slot_key d.id slots ≡ none
    → eligible slots later (end_analysis s blob e now (note_change cause blob t d)) ≡ true
unfolding end_analysis settle_demand_after_execution_failure settle_demand_after_comparison
noted_change-eligible s blob cause t (failure c code retryable) now d slots later l m g p h n =
    rw (pending_change-note_change cause blob t d l g p) (
      restored-eligible slots blob cause (min (t + seconds 30) (first_event d t + seconds 60)) now
        later _ m (omega (arith, h))
        (ap (λ i. row_at slot_key i slots)
            (settle_runtime_failure-id blob c code "execution" retryable s now
                (note_change cause blob t d)
              ∙ note_change-id cause blob t d)
          ∙ n))
noted_change-eligible s blob cause t (comparison v promoted) now d slots later l m g p h n =
    rw (pending_change-note_change cause blob t d l g p) (
      restored-eligible slots blob cause (min (t + seconds 30) (first_event d t + seconds 60)) now
        later _ m (omega (arith, h))
        (ap (λ i. row_at slot_key i slots)
            (compared-id blob v promoted s now (note_change cause blob t d)
              ∙ note_change-id cause blob t d)
          ∙ n))
