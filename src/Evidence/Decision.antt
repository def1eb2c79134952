-- ===== src/Evidence/Decision.antt =====
-- What a comparison of two analyses has found so far, and its decision: ComparisonDecision, `_Loss` and
-- the local state of `compare_evidence` (evidence_comparison.py).
pub mod Contract
use crash_cap.Base.{
  ℕ, String, Bool, true, false, ◌&&◌, ◌||◌, Option, none, some, List, [], ◌∷◌, ◌++◌, nat_eq, Result,
}
use crash_cap.Base.Keys.{◌==◌, text_keys}
use crash_cap.Evidence.{FrameEvidence, one_of}
use crash_cap.Evidence.Shape.{FaultAnchor}

-- A value of a field of a frame.
pub data FieldValue : Type 0 where
  text : String → FieldValue
  number : ℕ → FieldValue

-- A difference: the path is the constructor with its leading arguments, before the two values.
pub data Delta : Type 0 where
  authorization_delta context_delta inspect_delta : String → String → Delta
  fault_delta : FaultAnchor → FaultAnchor → Delta
  classification_delta : ℕ → String → String → Delta
  anchor_delta : FrameEvidence → Delta
  unwind_delta : Option String → Option String → Delta
  field_delta : FrameEvidence → String → Option FieldValue → Option FieldValue → Delta
  pair_delta : ℕ → Option String → Option String → Delta
  status_delta : ℕ → String → String → Delta
  failure_delta : ℕ → String → Delta

-- _Loss
pub record Loss : Type 0 where
  pub module_index : ℕ
  pub stage : String
  pub business : Bool

pub record Findings : Type 0 where
  pub losses : List Loss
  pub improved : Bool
  pub business_improved : Bool
  pub differences : List Delta

-- An early `return result(...)`: the decision, the reason, and the differences.
pub record Verdict : Type 0 where
  pub decision : String
  pub reason : String
  pub retry : Bool
  pub differences : List Delta

-- A part of the comparison goes on with its findings or returns.
abbrev pub Course : Type 0 → Type 0
Course A = Result Verdict A

abbrev pub incomparable : String → List Delta → Verdict
incomparable reason ds = record {
  decision = "incomparable";
  reason = reason;
  retry = false;
  differences = ds;
}

abbrev pub note_delta : Delta → Findings → Findings
note_delta d f = record f { differences = f.differences ++ d ∷ [] }

abbrev pub note_loss : ℕ → String → Bool → Findings → Findings
note_loss index stage business f = record f {
  losses = f.losses ++ record { module_index = index; stage = stage; business = business } ∷ [];
}

pub record ComparisonDecision : Type 0 where
  pub current_run_id : Option String
  pub candidate_run_id : String
  pub decision : String
  pub reason : String
  pub retry : Bool
  pub differences : List Delta
  pub audit_id : Option String
  pub audit_sha256 : Option String

-- `f.unwind_method in RELIABLE_METHODS`
abbrev pub reliable : Option String → Bool
reliable none = false
reliable (some m) = one_of m ("context" ∷ "call_frame_info" ∷ "frame_pointer" ∷ [])

-- Python's `==` on optional texts and numbers.
abbrev pub same_text : Option String → Option String → Bool
same_text none none = true
same_text (some a) (some b) = a == b
same_text _ _ = false

abbrev pub same_number : Option ℕ → Option ℕ → Bool
same_number none none = true
same_number (some a) (some b) = nat_eq a b
same_number _ _ = false

abbrev pub same_value : Option FieldValue → Option FieldValue → Bool
same_value none none = true
same_value (some (text a)) (some (text b)) = a == b
same_value (some (number a)) (some (number b)) = nat_eq a b
same_value _ _ = false

abbrev pub same_fault : FaultAnchor → FaultAnchor → Bool
same_fault a b =
    a.kind == b.kind
    && same_number a.thread_id b.thread_id
    && same_number a.module_index b.module_index
    && same_number a.rva b.rva
    && same_text a.exception_code b.exception_code
    && same_text a.access_type b.access_type
    && same_text a.fault_address b.fault_address

-- `decision in {"promote", "correct"}`
abbrev pub moves : String → Bool
moves d = d == "promote" || d == "correct"
