-- ===== src/Evidence/Tests.antt =====
-- Concrete evidence (evidence_comparison.py), and the theorems at it.
use crash_cap.Base.{String, ℕ, ◌≡◌, refl, true, none, some, List, [], ◌∷◌, length, arith}
use crash_cap.Evidence.{FrameEvidence, ModuleEvidence, SourceOutcome, one_of, is_digest, hex_text}
use crash_cap.Evidence.Sources.{loss_class, class_of, transient}
use crash_cap.Evidence.Alignment.{
  hits, seek_up, seek_down, earliest, latest, backwards, same_indices, agreed, align,
}
use crash_cap.Evidence.Shape.{
  AnalysisEvidence, EvidenceAuthorization, covers, shape_valid, every_frame, distinct_indices,
  module_at,
}
use crash_cap.Evidence.Comparison.{compare_evidence, decided, admitted, succeeds}
use crash_cap.Evidence.Decision.{moves}
use crash_cap.Evidence.Comparison.Safety.{Moved, compare_evidence-Moved}
use crash_cap.Evidence.Alignment.Unique.{Embeds, align-Embeds, align_unique}

abbrev frame : ℕ → FrameEvidence
frame rva = record {
  thread_id = 1;
  module_index = 0;
  rva = rva;
  unwind_method = some "context";
  in_app = true;
  function = none;
  file = none;
  line = none;
}

abbrev indices : List ℕ
indices = 0 ∷ 2 ∷ 3 ∷ []

abbrev old_frames : List FrameEvidence
old_frames = frame 5 ∷ frame 7 ∷ frame 5 ∷ []

abbrev new_frames : List FrameEvidence
new_frames = frame 5 ∷ frame 6 ∷ frame 7 ∷ frame 5 ∷ []

aligned : align old_frames new_frames ≡ some indices
unfolding align agreed same_indices backwards latest earliest seek_down seek_up hits
aligned = refl

-- A repeated frame can be matched in two ways.
ambiguous : align (frame 5 ∷ []) (frame 5 ∷ frame 5 ∷ []) ≡ none
unfolding align agreed same_indices backwards latest earliest seek_down seek_up hits
ambiguous = refl

embedded : Embeds new_frames 0 4 old_frames indices
unfolding hits
embedded = (
  omega arith,
  omega arith,
  refl,
  (omega arith, omega arith, refl, (omega arith, omega arith, refl, omega arith)),
)

align_unique_example : indices ≡ indices
align_unique_example = align_unique old_frames new_frames indices indices aligned embedded

align-Embeds_example : Embeds new_frames 0 (length new_frames) old_frames indices
align-Embeds_example = align-Embeds old_frames new_frames indices aligned

abbrev passing : SourceOutcome
passing = record {
  source_id = "s";
  stage = "unwind";
  outcome = "failed";
  failure_class = "transient";
  reason = "timeout";
  diagnostic_sha256 = some "0123456789abcdef0123456789abcdef0123456789abcdef0123456789abcdef";
}

abbrev lossy : ModuleEvidence
lossy = record {
  index = 0;
  identity = (none, none, "x64");
  role = "owned";
  in_app = true;
  selection_state = "unique";
  pair_id = some "p";
  symbol_status = "missing";
  sources = passing ∷ [];
  role_source = "unspecified";
}

lost_in_passing : loss_class lossy "unwind" ≡ transient
unfolding loss_class class_of one_of is_digest hex_text
lost_in_passing = refl

abbrev evidence : String → String → AnalysisEvidence
evidence run reason = record {
  run_id = run;
  occurrence_id = "o";
  dump_sha256 = "d";
  inspect_sha256 = "i";
  context_sha256 = "x";
  canonical_sha256 = run;
  status = "COMPLETE";
  reason = reason;
  provenance = "native_2.0";
  usable = true;
  pair_evidence_complete = true;
  fault = record {
    kind = "exception";
    thread_id = some 1;
    module_index = some 0;
    rva = some 5;
    exception_code = none;
    access_type = none;
    fault_address = none;
  };
  modules = lossy ∷ [];
  frames = old_frames;
  schema_version = "comparison-evidence-v1";
  classification_context_sha256 = none;
}

abbrev audit : EvidenceAuthorization
audit = record {
  cause = "engine_upgrade";
  current_run_id = "r1";
  candidate_run_id = "r2";
  current_canonical_sha256 = "r1";
  candidate_canonical_sha256 = "r2";
  audit_id = "a1";
  audit_sha256 = "0123456789abcdef0123456789abcdef0123456789abcdef0123456789abcdef";
}

is_valid : shape_valid (evidence "r1" "manual") ≡ true
unfolding shape_valid every_frame distinct_indices module_at one_of
is_valid = refl

is_covered : covers audit (evidence "r1" "manual") (evidence "r2" "engine_upgrade") ≡ true
unfolding covers one_of is_digest hex_text
is_covered = refl

abbrev first_run : AnalysisEvidence
first_run = evidence "r1" "manual"

abbrev second_run : AnalysisEvidence
second_run = evidence "r2" "engine_upgrade"

reviewed_moves : moves (compare_evidence (some first_run) second_run (some audit)).decision ≡ true
unfolding compare_evidence decided admitted succeeds shape_valid every_frame distinct_indices
    module_at one_of covers is_digest hex_text
reviewed_moves = refl

compare_evidence-Moved_example : Moved first_run second_run (some audit)
compare_evidence-Moved_example =
    compare_evidence-Moved first_run second_run (some audit) reviewed_moves
