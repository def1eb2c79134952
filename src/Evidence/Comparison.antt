-- ===== src/Evidence/Comparison.antt =====
-- `compare_evidence` of evidence_comparison.py.
pub mod Safety
pub mod Contract
use crash_cap.Base.{
  ℕ, String, Bool, true, false, not, ◌&&◌, ◌||◌, Option, none, some, List, [], ◌∷◌, ◌++◌, map,
  is_some, if◌then◌else◌, Result, ok, err, ◌>>=◌, ◌>>◌, require,
}
use crash_cap.Base.Keys.{◌==◌, text_keys}
use crash_cap.Base.Sorting.{str_lt}
use crash_cap.Evidence.{ModuleEvidence, one_of}
use crash_cap.Evidence.Shape.{
  AnalysisEvidence, EvidenceAuthorization, covers, shape_valid, module_at,
}
use crash_cap.Evidence.Sources.{
  LossClass, permanent, unknown, loss_class, has_retryable_source_gaps,
}
use crash_cap.Evidence.Decision.{
  Delta, authorization_delta, context_delta, inspect_delta, fault_delta, Loss, Findings, Verdict,
  Course, ComparisonDecision, incomparable, same_text, same_fault,
}
use crash_cap.Evidence.Modules.{
  same_keys, counterpart, classify, reclassify, compare_modules, failing_stages,
}
use crash_cap.Evidence.Frames.{compare_frames}

abbrev verdict : String → String → Bool → List Delta → Verdict
verdict decision reason retry ds = record {
  decision = decision;
  reason = reason;
  retry = retry;
  differences = ds;
}

-- What a candidate must be to be compared at all.
unfoldable pub admitted : AnalysisEvidence → Course (Unit {0})
admitted n = do
  require (one_of n.status ("COMPLETE" ∷ "PARTIAL" ∷ []) && n.usable)
      (verdict "retain" "candidate_not_eligible" false [])
  require (one_of n.provenance ("native_2.0" ∷ "verified_raw_mapping" ∷ []))
      (incomparable "candidate_evidence_missing" [])
  require (shape_valid n) (incomparable "module_evidence_incomplete" [])

-- The candidate is a newer analysis of the same dump of the same occurrence.
unfoldable pub succeeds : AnalysisEvidence → AnalysisEvidence → Course (Unit {0})
succeeds c n = do
  require (c.occurrence_id == n.occurrence_id && c.dump_sha256 == n.dump_sha256)
      (incomparable "occurrence_or_dump_mismatch" [])
  require (str_lt c.run_id n.run_id) (verdict "retain" "older_candidate" false [])

-- `classification_context_sha256` is there and the same.
abbrev pub same_classification : AnalysisEvidence → AnalysisEvidence → Bool
same_classification c n =
    is_some c.classification_context_sha256
    && same_text c.classification_context_sha256 n.classification_context_sha256

abbrev pub same_setting : AnalysisEvidence → AnalysisEvidence → Bool
same_setting c n =
    (c.context_sha256 == n.context_sha256 || same_classification c n)
    && c.inspect_sha256 == n.inspect_sha256

abbrev pub setting_deltas : AnalysisEvidence → AnalysisEvidence → List Delta
setting_deltas c n =
    context_delta c.context_sha256 n.context_sha256
    ∷ inspect_delta c.inspect_sha256 n.inspect_sha256
    ∷ []

-- What both must be for their frames and modules to be compared.
unfoldable pub comparable : AnalysisEvidence → AnalysisEvidence → Course (Unit {0})
comparable c n = do
  require (one_of n.reason ("symbol_refresh" ∷ "manual" ∷ []))
      (incomparable "transition_requires_review" [])
  require (not (c.provenance == "insufficient") && c.usable)
      (incomparable "legacy_evidence_missing" [])
  require (c.pair_evidence_complete && n.pair_evidence_complete)
      (incomparable "pair_evidence_incomplete" [])
  require (same_setting c n) (incomparable "context_mismatch" (setting_deltas c n))
  require (same_fault c.fault n.fault)
      (incomparable "fault_changed" (fault_delta c.fault n.fault ∷ []))
  require (shape_valid c && same_keys c.modules n.modules)
      (incomparable "module_evidence_incomplete" [])

-- any(...) and all(...) over losses
abbrev some_loss : (Loss → Bool) → List Loss → Bool
some_loss p [] = false
some_loss p (l ∷ ls) = p l || some_loss p ls

abbrev is_permanent : LossClass → Bool
is_permanent permanent = true
is_permanent _ = false

abbrev is_unknown : LossClass → Bool
is_unknown unknown = true
is_unknown _ = false

-- The module of a loss and its class in the candidate.
abbrev module_of : List ModuleEvidence → ℕ → (ModuleEvidence → Bool) → Bool
module_of ms index p = elim (module_at index ms) [ none ↦ false | some m ↦ p m ]

abbrev classed : (LossClass → Bool) → List ModuleEvidence → Loss → Bool
classed p ns l = module_of ns l.module_index (λ n. p (loss_class n l.stage))

abbrev of_system : List ModuleEvidence → Loss → Bool
of_system ms l = module_of ms l.module_index (λ m. m.role == "system" && not m.in_app)

-- What is lost decides, if anything is.
unfoldable pub judge_losses : List ModuleEvidence → List ModuleEvidence → Findings → Verdict
judge_losses ms ns s =
    let only_system = not (some_loss (λ l. not (of_system ms l)) s.losses) in
    if some_loss (classed is_unknown ns) s.losses
    then incomparable "unknown_loss" s.differences
    else if some_loss (classed is_permanent ns) s.losses
    then verdict "retain" "permanent_loss" false s.differences
    else if some_loss (λ l. l.business) s.losses
    then verdict "retain" "business_transient_loss" true s.differences
    else if only_system && s.business_improved
    then verdict "promote" "q16_system_transient" true s.differences
    else verdict "retain"
        (if only_system then "system_transient_loss" else "non_system_transient_loss") true
        s.differences

unfoldable pub judge_kept : List ModuleEvidence → List ModuleEvidence → Findings → Verdict
judge_kept ms ns s =
    let (retry, ds) = failing_stages ns ms (false, s.differences) in
    verdict "promote" (if s.improved then "improved" else "equivalent")
      (retry || has_retryable_source_gaps ns) ds

abbrev judge : List ModuleEvidence → List ModuleEvidence → Findings → Verdict
judge ms ns s = elim s.losses [ [] ↦ judge_kept ms ns s | l ∷ ls ↦ judge_losses ms ns s ]

abbrev start : Findings
start = record { losses = []; improved = false; business_improved = false; differences = [] }

-- The comparison proper.
unfoldable pub compare_details : AnalysisEvidence → AnalysisEvidence → Course Verdict
unfolding judge_losses judge_kept
compare_details c n = do
  (ms, s) ← classify (same_classification c n) n.modules c.modules start
  let frames = if s.improved then reclassify ms c.frames else c.frames
  s1 ← compare_frames c.fault.thread_id n.fault.thread_id frames n.frames s
  s2 ← compare_modules n.modules ms s1
  ok (judge ms n.modules s2)

-- The verdict is the value that is returned, early or not.
abbrev pub returned : Course Verdict → Verdict
returned (ok v) = v
returned (err v) = v

abbrev pub initial : AnalysisEvidence → Verdict
initial n = verdict "promote" "initial" (has_retryable_source_gaps n.modules) []

-- `authorization is not None and authorization.covers(current, candidate) and ...`
abbrev pub authorized : Option EvidenceAuthorization → AnalysisEvidence → AnalysisEvidence → Bool
authorized none c n = false
authorized (some a) c n = covers a c n && n.pair_evidence_complete

abbrev pub reviewed : AnalysisEvidence → AnalysisEvidence → Verdict
reviewed c n =
    let ds = authorization_delta c.canonical_sha256 n.canonical_sha256 ∷ [] in
    if n.reason == "evidence_correction"
    then verdict "correct" "verified_correction" false ds
    else verdict "promote" "reviewed_transition" false ds

unfoldable pub decided :
    Option AnalysisEvidence → AnalysisEvidence → Option EvidenceAuthorization → Course Verdict
decided none n a = do admitted n; ok (initial n)
decided (some c) n a = do
  admitted n
  succeeds c n
  if authorized a c n then ok (reviewed c n) else (comparable c n >> compare_details c n)

-- The audit that the decision names, if it rests on one.
unfoldable pub audited :
    Option AnalysisEvidence
    → AnalysisEvidence
    → Option EvidenceAuthorization
    → Option EvidenceAuthorization
audited none n a = none
audited (some c) n a = elim (admitted n >> succeeds c n) [
  | ok u ↦ if authorized a c n then a else none
  | err v ↦ none
]

abbrev run_id_of : Option AnalysisEvidence → Option String
run_id_of none = none
run_id_of (some c) = some c.run_id

abbrev audit_id_of : Option EvidenceAuthorization → Option String
audit_id_of none = none
audit_id_of (some a) = some a.audit_id

abbrev pub audit_sha256_of : Option EvidenceAuthorization → Option String
audit_sha256_of none = none
audit_sha256_of (some a) = some a.audit_sha256

unfoldable pub compare_evidence :
    Option AnalysisEvidence → AnalysisEvidence → Option EvidenceAuthorization → ComparisonDecision
unfolding decided audited
compare_evidence current n a =
    let v = returned (decided current n a) in
    let audit = audited current n a in
    record {
      current_run_id = run_id_of current;
      candidate_run_id = n.run_id;
      decision = v.decision;
      reason = v.reason;
      retry = v.retry;
      differences = v.differences;
      audit_id = audit_id_of audit;
      audit_sha256 = audit_sha256_of audit;
    }
