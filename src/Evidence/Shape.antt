-- ===== src/Evidence/Shape.antt =====
-- The evidence of one analysis, its shape, and the audit that may authorize a change: AnalysisEvidence,
-- `_shape_valid` and EvidenceAuthorization (evidence_comparison.py).
use crash_cap.Base.{
  ℕ, String, ◌≡◌, Bool, true, false, not, ◌&&◌, Option, none, some, List, [], ◌∷◌, is_some, nat_eq,
  if◌then◌else◌, arith,
}
use crash_cap.Base.Keys.{◌==◌, text_keys}
use package.text.Mathlib.TextEquality.{eq_iff}
use crash_cap.Evidence.{ModuleEvidence, FrameEvidence, one_of, none_or, is_digest, some_module}

pub record FaultAnchor : Type 0 where
  pub kind : String
  pub thread_id : Option ℕ
  pub module_index : Option ℕ
  pub rva : Option ℕ
  pub exception_code : Option String
  pub access_type : Option String
  pub fault_address : Option String

pub record AnalysisEvidence : Type 0 where
  pub run_id : String
  pub occurrence_id : String
  pub dump_sha256 : String
  pub inspect_sha256 : String
  pub context_sha256 : String
  pub canonical_sha256 : String
  pub status : String
  pub reason : String
  pub provenance : String
  pub usable : Bool
  pub pair_evidence_complete : Bool
  pub fault : FaultAnchor
  pub modules : List ModuleEvidence
  pub frames : List FrameEvidence
  pub schema_version : String
  pub classification_context_sha256 : Option String

pub record EvidenceAuthorization : Type 0 where
  pub cause : String
  pub current_run_id : String
  pub candidate_run_id : String
  pub current_canonical_sha256 : String
  pub candidate_canonical_sha256 : String
  pub audit_id : String
  pub audit_sha256 : String

-- EvidenceAuthorization.covers
unfoldable pub covers : EvidenceAuthorization → AnalysisEvidence → AnalysisEvidence → Bool
covers a current candidate =
    a.cause == candidate.reason
    && one_of a.cause ("engine_upgrade" ∷ "role_change" ∷ "evidence_correction" ∷ [])
    && a.current_run_id == current.run_id
    && a.candidate_run_id == candidate.run_id
    && a.current_canonical_sha256 == current.canonical_sha256
    && a.candidate_canonical_sha256 == candidate.canonical_sha256
    && not (a.audit_id == "")
    && is_digest (some a.audit_sha256)

abbrev pub same_flag : Bool → Bool → Bool
same_flag true b = b
same_flag false b = not b

-- `modules[index]`: of modules with the same index the last one stays in the dictionary.
unfoldable pub module_at : ℕ → List ModuleEvidence → Option ModuleEvidence
module_at i [] = none
module_at i (m ∷ ms) =
    let later = module_at i ms in
    elim later [ some n ↦ some n | none ↦ if nat_eq m.index i then some m else none ]

-- `len(modules) == len(evidence.modules)`: no index is there twice.
unfoldable pub distinct_indices : List ModuleEvidence → Bool
distinct_indices [] = true
distinct_indices (m ∷ ms) =
    let rest = distinct_indices ms in not (some_module (λ n. nat_eq n.index m.index) ms) && rest

abbrev every_module : (ModuleEvidence → Bool) → List ModuleEvidence → Bool
every_module p ms = not (some_module (λ m. not (p m)) ms)

abbrev known_methods : List String
known_methods =
    "context" ∷ "call_frame_info" ∷ "frame_pointer" ∷ "cfi_scan" ∷ "scan" ∷ "prewalked" ∷ "unknown"
    ∷ []

-- The module of a frame is there, and they agree on being in the application.
abbrev placed : Option ModuleEvidence → FrameEvidence → Bool
placed none f = false
placed (some m) f = same_flag f.in_app m.in_app

unfoldable pub every_frame : (FrameEvidence → Bool) → List FrameEvidence → Bool
every_frame p [] = true
every_frame p (f ∷ fs) = let rest = every_frame p fs in p f && rest

-- _shape_valid
unfoldable pub shape_valid : AnalysisEvidence → Bool
unfolding every_frame distinct_indices
shape_valid e =
    distinct_indices e.modules
    && every_module (λ m. same_flag (m.selection_state == "unique") (is_some m.pair_id)) e.modules
    && every_frame
        (λ f.
          placed (module_at f.module_index e.modules) f && none_or f.unwind_method known_methods)
        e.frames

-- An audit record authorizes one change only: all that it covers has the same Runs, with the same
-- results, and the same cause.
pub covers_once :
    (a : EvidenceAuthorization) (c d m n : AnalysisEvidence)
    → covers a c m ≡ true
    → covers a d n ≡ true
    → (c.run_id ≡ d.run_id)
      × (m.run_id ≡ n.run_id)
      × (c.canonical_sha256 ≡ d.canonical_sha256)
      × (m.canonical_sha256 ≡ n.canonical_sha256)
      × (m.reason ≡ n.reason)
unfolding covers
covers_once a c d m n h k = (
  ground (arith, h, k, eq_iff a.current_run_id c.run_id, eq_iff a.current_run_id d.run_id),
  ground (arith, h, k, eq_iff a.candidate_run_id m.run_id, eq_iff a.candidate_run_id n.run_id),
  ground (
    arith,
    h,
    k,
    eq_iff a.current_canonical_sha256 c.canonical_sha256,
    eq_iff a.current_canonical_sha256 d.canonical_sha256,
  ),
  ground (
    arith,
    h,
    k,
    eq_iff a.candidate_canonical_sha256 m.canonical_sha256,
    eq_iff a.candidate_canonical_sha256 n.canonical_sha256,
  ),
  ground (arith, h, k, eq_iff a.cause m.reason, eq_iff a.cause n.reason),
)
