-- ===== src/Current.antt =====
-- The Current analysis of an occurrence and the decisions that move it: `select_current_run` and
-- `promote_current_by_evidence` (platform/api/crashcap_api/services/current_decisions.py).
pub mod Log
pub mod Agreement
mod Tests
use crash_cap.Base.{
  ℕ, String, Bool, true, false, not, ◌&&◌, Option, none, some, List, [], ◌∷◌, ◌++◌, is_some,
  if◌then◌else◌, Result, ok, err, ◌>>=◌, ◌>>◌, require, present,
}
use crash_cap.Base.Keys.{◌==◌, text_keys}
use crash_cap.Base.Sorting.{str_lt}
use crash_cap.Base.Table
use crash_cap.Evidence.{one_of, is_digest}
use crash_cap.Evidence.Shape.{AnalysisEvidence}
use crash_cap.Evidence.Decision.{ComparisonDecision, Delta, same_text, moves}
use crash_cap.Evidence.Decision.Contract.{decision_contract}
use crash_cap.Evidence.Comparison.{compare_evidence}

-- The columns of AnalysisRun that the choice reads.
pub record CandidateRun : Type 0 where
  pub id : String
  pub occurrence_id : String
  pub status : String

-- The columns of Occurrence.
pub record Occurrence : Type 0 where
  pub id : String
  pub current_run_id : Option String

pub record CurrentDecision : Type 0 where
  pub candidate_run_id : String
  pub occurrence_id : String
  pub observed_current_run_id : Option String
  pub decision : String
  pub reason : String
  pub retry_recommended : Bool
  pub differences : List Delta
  pub current_evidence : Option AnalysisEvidence
  pub candidate_evidence : AnalysisEvidence
  pub audit_id : Option String
  pub audit_sha256 : Option String
  pub execution_attempt_id : String
  pub execution_generation : ℕ

pub record Tables : Type 0 where
  pub occurrences : List Occurrence
  pub runs : List CandidateRun
  pub decisions : List CurrentDecision

-- What the two functions raise.
pub data CurrentError : Type 0 where
  selection_changed not_eligible older_run : CurrentError
  target_disappeared wrong_occurrence current_changed other_evidence already_decided : CurrentError
  contract_violated : CurrentError

abbrev pub occurrence_key : Occurrence → String
occurrence_key o = o.id

abbrev pub run_key : CandidateRun → String
run_key r = r.id

abbrev pub decision_key : CurrentDecision → String
decision_key d = d.candidate_run_id

-- `not (expected is not None and candidate.id <= expected)`
abbrev pub is_newer : Option String → String → Bool
is_newer none id = true
is_newer (some current) id = str_lt current id

-- select_current_run
unfoldable pub select_current_run :
    Occurrence → CandidateRun → Option String → Result CurrentError Occurrence
select_current_run o r expected = do
  require (same_text o.current_run_id expected) selection_changed
  require (r.occurrence_id == o.id && one_of r.status ("COMPLETE" ∷ "PARTIAL" ∷ [])) not_eligible
  require (is_newer expected r.id) older_run
  ok (record o { current_run_id = some r.id })

abbrev pub observed : Option AnalysisEvidence → Option String
observed none = none
observed (some c) = some c.run_id

-- A promotion that may be decided: the locked rows, and the decision.
unfoldable pub promotable :
    String
    → String
    → AnalysisEvidence
    → Option AnalysisEvidence
    → Tables
    → Result CurrentError (Occurrence × CandidateRun)
promotable occurrence run n c db = do
  o ← present (Table.row_at occurrence_key occurrence db.occurrences) target_disappeared
  r ← present (Table.row_at run_key run db.runs) target_disappeared
  require (r.occurrence_id == o.id) wrong_occurrence
  require (same_text o.current_run_id (observed c)) current_changed
  require (n.run_id == r.id) other_evidence
  require (not (is_some (Table.row_at decision_key r.id db.decisions))) already_decided
  require (decision_contract (compare_evidence c n none)) contract_violated
  ok (o, r)

-- `if promoted: select_current_run(...)`
unfoldable pub chosen :
    ComparisonDecision
    → Option AnalysisEvidence
    → Occurrence
    → CandidateRun
    → Result CurrentError Occurrence
chosen d c o r = if moves d.decision then select_current_run o r (observed c) else ok o

unfoldable pub recorded :
    ComparisonDecision
    → String
    → ℕ
    → AnalysisEvidence
    → Option AnalysisEvidence
    → Occurrence
    → CandidateRun
    → CurrentDecision
recorded d attempt generation n c o r = record {
  candidate_run_id = r.id;
  occurrence_id = o.id;
  observed_current_run_id = observed c;
  decision = d.decision;
  reason = d.reason;
  retry_recommended = d.retry;
  differences = d.differences;
  current_evidence = c;
  candidate_evidence = n;
  audit_id = d.audit_id;
  audit_sha256 = d.audit_sha256;
  execution_attempt_id = attempt;
  execution_generation = generation;
}

-- EvidencePromotion
pub record EvidencePromotion : Type 0 where
  pub promoted : Bool
  pub previous_run_id : Option String
  pub decision : ComparisonDecision

-- What the caller passes.
pub record Promotion : Type 0 where
  pub occurrence : String
  pub run : String
  pub candidate_evidence : AnalysisEvidence
  pub current_evidence : Option AnalysisEvidence
  pub attempt : String
  pub generation : ℕ

-- What a call returns or raises, and the tables after it; one that raises is rolled back.
abbrev pub Outcome : Type 0
Outcome = Result CurrentError EvidencePromotion × Tables

abbrev pub comparison : Promotion → ComparisonDecision
comparison p = compare_evidence p.current_evidence p.candidate_evidence none

unfoldable pub written :
    Promotion → CandidateRun → Occurrence → Result CurrentError Occurrence → Tables → Outcome
unfolding recorded
written p r o (err e) db = (err e, db)
written p r o (ok o') db =
    let d = comparison p in
    (
      ok (record {
        promoted = moves d.decision;
        previous_run_id = observed p.current_evidence;
        decision = d;
      }),
      record db {
        occurrences = Table.save occurrence_key o' db.occurrences;
        decisions =
            db.decisions
            ++ recorded d p.attempt p.generation p.candidate_evidence p.current_evidence o r ∷ [];
      },
    )

unfoldable pub promoted_by :
    Promotion → Result CurrentError (Occurrence × CandidateRun) → Tables → Outcome
unfolding written chosen
promoted_by p (err e) db = (err e, db)
promoted_by p (ok (o, r)) db = written p r o (chosen (comparison p) p.current_evidence o r) db

-- promote_current_by_evidence
unfoldable pub promote_current_by_evidence : Promotion → Tables → Outcome
unfolding promoted_by promotable
promote_current_by_evidence p db =
    promoted_by p (promotable p.occurrence p.run p.candidate_evidence p.current_evidence db) db
