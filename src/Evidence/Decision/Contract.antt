-- ===== src/Evidence/Decision/Contract.antt =====
-- The contract of a decision: contracts/drafts/qa-symbol-import/comparison-decision-v1.schema.json.
use crash_cap.Base.{
  String, ◌≡◌, Bool, true, false, not, ◌&&◌, Option, none, some, List, [], ◌∷◌, ok, err, ◌>>=◌,
  ◌>>◌, require, if◌then◌else◌,
}
use crash_cap.Base.Keys.{◌==◌, text_keys}
use crash_cap.Evidence.{one_of, is_digest}
use crash_cap.Evidence.Decision.{Verdict, Course, ComparisonDecision}

abbrev contract_reasons : List String
contract_reasons =
    "initial" ∷ "equivalent" ∷ "improved" ∷ "q16_system_transient" ∷ "business_transient_loss"
    ∷ "permanent_loss" ∷ "unknown_loss" ∷ "context_mismatch" ∷ "fault_changed" ∷ "anchor_lost"
    ∷ "ambiguous_alignment" ∷ "unwind_changed" ∷ "interpretation_changed"
    ∷ "legacy_evidence_missing" ∷ "verified_correction" ∷ "older_candidate"
    ∷ "candidate_not_eligible" ∷ "candidate_evidence_missing" ∷ "occurrence_or_dump_mismatch"
    ∷ "reviewed_transition" ∷ "transition_requires_review" ∷ "pair_evidence_incomplete"
    ∷ "module_evidence_incomplete" ∷ "correction_required" ∷ "selection_evidence_incomplete"
    ∷ "system_transient_loss" ∷ "non_system_transient_loss" ∷ []

abbrev pub no_digest_or : Option String → Bool
no_digest_or none = true
no_digest_or (some s) = is_digest (some s)

-- A decision and a reason that contracts/drafts/qa-symbol-import/comparison-decision-v1.schema.json lists.
unfoldable pub listed : String → String → Bool
listed decision reason =
    one_of decision ("promote" ∷ "retain" ∷ "incomparable" ∷ "correct" ∷ [])
    && one_of reason contract_reasons

-- What that contract asks beyond the types of the fields.
unfoldable pub decision_contract : ComparisonDecision → Bool
unfolding listed
decision_contract d =
    not (d.candidate_run_id == "") && listed d.decision d.reason && no_digest_or d.audit_sha256

abbrev pub IsListed : Verdict → Type 0
IsListed v = listed v.decision v.reason ≡ true

-- A part of the comparison that returns, if it does, what the contract lists.
pub data Returns {A : Type 0} : Course A → Type 0 where
  goes_on : (x : A) → Returns (ok x)
  returns : (v : Verdict) → IsListed v → Returns (err v)

pub require-Returns : (b : Bool) (v : Verdict) → IsListed v → Returns (require b v)
require-Returns true v h = goes_on tt
require-Returns false v h = returns v h

pub bind-Returns :
    {A B : Type 0} (m : Course A) (k : A → Course B)
    → Returns m
    → ((x : A) → Returns (k x))
    → Returns (m >>= k)
bind-Returns _ k (goes_on x) h = h x
bind-Returns _ k (returns v e) h = returns v e

pub check-Returns :
    {B : Type 0} (b : Bool) (v : Verdict) (k : Course B)
    → IsListed v
    → Returns k
    → Returns (require b v >> k)
check-Returns true v k h r = r
check-Returns false v k h r = returns v h

pub if-Returns :
    {A : Type 0} (b : Bool) (m n : Course A) → Returns m → Returns n → Returns (if b then m else n)
if-Returns true m n h k = h
if-Returns false m n h k = k

pub option-Returns :
    {A B : Type 0} (o : Option A) (m : Course B) (k : A → Course B)
    → Returns m
    → ((x : A) → Returns (k x))
    → Returns (elim o [ none ↦ m | some x ↦ k x ])
option-Returns none m k h f = h
option-Returns (some x) m k h f = f x
