-- ===== src/Current/Tests.antt =====
-- A promotion on concrete tables (services/current_decisions.py), and the theorems at it.
use crash_cap.Base.{String, ◌≡◌, refl, true, false, not, none, some, [], ◌∷◌, err}
use crash_cap.Base.Keys.{◌==◌, text_keys}
use crash_cap.Base.Table.{row_at}
use crash_cap.Evidence.Shape.{AnalysisEvidence}
use crash_cap.Evidence.Decision.Contract.{decision_contract}
use crash_cap.Evidence.Comparison.{compare_evidence}
use crash_cap.Evidence.Comparison.Contract.{decision_contract-compare_evidence}
use crash_cap.Current.{
  CandidateRun, Occurrence, Tables, current_changed, Promotion, promotable,
  promote_current_by_evidence,
}
use crash_cap.Current.Log.{calls, Replayed, calls-Replayed}
use crash_cap.Current.Agreement.{of_selection, promote_current_by_evidence_agrees}

abbrev evidence : String → AnalysisEvidence
evidence run = record {
  run_id = run;
  occurrence_id = "o";
  dump_sha256 = "d";
  inspect_sha256 = "i";
  context_sha256 = "x";
  canonical_sha256 = run;
  status = "COMPLETE";
  reason = "manual";
  provenance = "native_2.0";
  usable = true;
  pair_evidence_complete = true;
  fault = record {
    kind = "exception";
    thread_id = some 1;
    module_index = none;
    rva = none;
    exception_code = none;
    access_type = none;
    fault_address = none;
  };
  modules = [];
  frames = [];
  schema_version = "comparison-evidence-v1";
  classification_context_sha256 = none;
}

abbrev run : String → CandidateRun
run id = record { id = id; occurrence_id = "o"; status = "COMPLETE" }

abbrev crash : Occurrence
crash = record { id = "o"; current_run_id = none }

abbrev tables : Tables
tables = record { occurrences = crash ∷ []; runs = run "r1" ∷ run "r2" ∷ []; decisions = [] }

abbrev first : Promotion
first = record {
  occurrence = "o";
  run = "r1";
  candidate_evidence = evidence "r1";
  current_evidence = none;
  attempt = "a1";
  generation = 1;
}

abbrev second : Promotion
second = record first {
  run = "r2";
  candidate_evidence = evidence "r2";
  current_evidence = some (evidence "r1");
}

-- The evidence of Current that the second promotion has read is not the one of Current yet.
abbrev too_soon : Promotion
too_soon = second

calls-Replayed_example : Replayed "o" crash tables (calls (first ∷ second ∷ []) tables)
unfolding row_at
calls-Replayed_example = calls-Replayed "o" crash (first ∷ second ∷ []) tables refl

refused : (promote_current_by_evidence too_soon tables).0 ≡ err current_changed
unfolding promote_current_by_evidence promotable row_at
refused = refl

promote_current_by_evidence_agrees_example : of_selection current_changed ≡ false
unfolding row_at
promote_current_by_evidence_agrees_example =
    promote_current_by_evidence_agrees too_soon tables (run "r2") current_changed refl refl refused

decision_contract-compare_evidence_example :
    decision_contract (compare_evidence (some (evidence "r1")) (evidence "r2") none)
    ≡ not ((evidence "r2").run_id == "")
decision_contract-compare_evidence_example =
    decision_contract-compare_evidence (some (evidence "r1")) (evidence "r2") none
