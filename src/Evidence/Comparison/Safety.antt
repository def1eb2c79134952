-- ===== src/Evidence/Comparison/Safety.antt =====
-- What `compare_evidence` (evidence_comparison.py) never promotes.
use crash_cap.Base.{
  ◌≡◌, refl, Bool, true, false, not, ◌&&◌, Option, none, some, [], ◌∷◌, ◌⊎◌, if◌then◌else◌, ok, err,
  ◌>>◌, ◌>>=◌, require, All, inl, inr, arith,
}
use crash_cap.Base.Keys.{◌==◌, text_keys}
use crash_cap.Base.Sorting.{str_lt}
use crash_cap.Evidence.{one_of}
use crash_cap.Evidence.Shape.{AnalysisEvidence, EvidenceAuthorization, shape_valid}
use crash_cap.Evidence.Decision.{moves, Verdict, Course, same_fault}
use crash_cap.Evidence.Modules.{same_keys, classify}
use crash_cap.Evidence.Modules.Agreeing.{Agrees, Outcome, classify-Agrees}
use crash_cap.Evidence.Comparison.{
  initial, admitted, succeeds, same_setting, same_classification, start, comparable,
  compare_details, returned, authorized, reviewed, decided, compare_evidence,
}

-- What is known when a part of the comparison goes on; a verdict that it returns moves nothing.
data Passes {A : Type 0} (P : Type 0) : Course A → Type 0 where
  goes_on : (x : A) → P → Passes P (ok x)
  returns : (v : Verdict) → moves v.decision ≡ false → Passes P (err v)

require-Passes :
    (b : Bool) (v : Verdict) → moves v.decision ≡ false → Passes (b ≡ true) (require b v)
require-Passes true v h = goes_on tt refl
require-Passes false v h = returns v h

after-Passes :
    {B : Type 0} {P Q : Type 0} (m : Course (Unit {0})) (k : Course B)
    → Passes P m
    → Passes Q k
    → Passes (P × Q) (m >> k)
after-Passes _ _ (goes_on x p) (goes_on y q) = goes_on y (p, q)
after-Passes _ _ (goes_on x p) (returns v e) = returns v e
after-Passes _ k (returns v e) q = returns v e

moves_after :
    {P : Type 0} (m : Course (Unit {0})) (k : Course Verdict)
    → Passes P m
    → moves (returned (m >> k)).decision ≡ true
    → P × (moves (returned k).decision ≡ true)
moves_after _ k (goes_on x p) h = (p, h)
moves_after _ k (returns v e) h = absurd (ground arith)

admitted-Passes :
    (n : AnalysisEvidence)
    → Passes
        (((one_of n.status ("COMPLETE" ∷ "PARTIAL" ∷ []) && n.usable) ≡ true)
          × ((one_of n.provenance ("native_2.0" ∷ "verified_raw_mapping" ∷ []) ≡ true)
              × (shape_valid n ≡ true)))
        (admitted n)
unfolding admitted
admitted-Passes n =
    after-Passes (require _ _) (require _ _ >> require _ _) (require-Passes _ _ refl)
      (after-Passes (require _ _) (require _ _) (require-Passes _ _ refl) (require-Passes _ _ refl))

succeeds-Passes :
    (c n : AnalysisEvidence)
    → Passes
        (((c.occurrence_id == n.occurrence_id && c.dump_sha256 == n.dump_sha256) ≡ true)
          × (str_lt c.run_id n.run_id ≡ true))
        (succeeds c n)
unfolding succeeds
succeeds-Passes c n =
    after-Passes (require _ _) (require _ _) (require-Passes _ _ refl) (require-Passes _ _ refl)

-- What `comparable` asks.
abbrev pub Kept : AnalysisEvidence → AnalysisEvidence → Type 0
Kept c n =
    (one_of n.reason ("symbol_refresh" ∷ "manual" ∷ []) ≡ true)
    × (((not (c.provenance == "insufficient") && c.usable) ≡ true)
        × (((c.pair_evidence_complete && n.pair_evidence_complete) ≡ true)
            × ((same_setting c n ≡ true)
                × ((same_fault c.fault n.fault ≡ true)
                    × ((shape_valid c && same_keys c.modules n.modules) ≡ true)))))

-- Besides, each module has the identity of its counterpart, and its classification or a less telling one.
abbrev pub Carried : AnalysisEvidence → AnalysisEvidence → Type 0
Carried c n = Kept c n × All (Agrees (same_classification c n) n.modules) c.modules

-- What moves Current has passed the first loop over the modules.
outcome-moves :
    {A : Type 0} (P : Type 0) (m : Course A) (k : A → Course Verdict)
    → Outcome P m
    → moves (returned (m >>= k)).decision ≡ true
    → P
outcome-moves P (ok x) k o h = o
outcome-moves P (err v) k o h = absurd (ground (arith, o, h))

compare_details-Agrees :
    (c n : AnalysisEvidence)
    → moves (returned (compare_details c n)).decision ≡ true
    → All (Agrees (same_classification c n) n.modules) c.modules
unfolding compare_details
compare_details-Agrees c n h =
    outcome-moves _ (classify (same_classification c n) n.modules c.modules start) _
      (classify-Agrees (same_classification c n) n.modules c.modules start) h

comparable-Passes : (c n : AnalysisEvidence) → Passes (Kept c n) (comparable c n)
unfolding comparable
comparable-Passes c n = after-Passes (require _ _) _ (require-Passes _ _ refl) (
    after-Passes (require _ _) _ (require-Passes _ _ refl) (
      after-Passes (require _ _) _ (require-Passes _ _ refl) (
        after-Passes (require _ _) _ (require-Passes _ _ refl) (
          after-Passes (require _ _) (require _ _) (require-Passes _ _ refl)
            (require-Passes _ _ refl)))))

after_review :
    (c n : AnalysisEvidence) (b : Bool)
    → moves
        (returned
          (if b then ok (reviewed c n) else (comparable c n >> compare_details c n))).decision
      ≡ true
    → (b ≡ true) ⊎ Carried c n
after_review c n true h = inl refl
after_review c n false h =
    let r = moves_after (comparable c n) (compare_details c n) (comparable-Passes c n) h in
    inr (r.0, compare_details-Agrees c n r.1)

abbrev pub Moved : AnalysisEvidence → AnalysisEvidence → Option EvidenceAuthorization → Type 0
Moved c n a =
    ((one_of n.status ("COMPLETE" ∷ "PARTIAL" ∷ []) && n.usable) ≡ true)
    × (shape_valid n ≡ true)
    × ((c.occurrence_id == n.occurrence_id && c.dump_sha256 == n.dump_sha256) ≡ true)
    × (str_lt c.run_id n.run_id ≡ true)
    × ((authorized a c n ≡ true) ⊎ Carried c n)

-- Current moves only to a complete or partial usable analysis with evidence of the right shape, of the same
-- dump of the same occurrence, with a larger run id; and only if a review covers both analyses, or the candidate
-- is a refresh of symbols or was asked for, the evidence of both is usable and complete, the fault, the context and
-- the inspection are the same, the modules have the same indices and, index by index, the same identity, and each
-- has the role of its counterpart or one that the catalog's defaults refine in the same context.
pub compare_evidence-Moved :
    (c n : AnalysisEvidence) (a : Option EvidenceAuthorization)
    → moves (compare_evidence (some c) n a).decision ≡ true
    → Moved c n a
unfolding compare_evidence decided
compare_evidence-Moved c n a h =
    let p = moves_after (admitted n) _ (admitted-Passes n) h in
    let q = moves_after (succeeds c n) _ (succeeds-Passes c n) p.1 in
    (p.0.0, p.0.1.1, q.0.0, q.0.1, after_review c n (authorized a c n) q.1)

-- A first Current, too, is complete or partial and usable.
pub compare_evidence_eligible :
    (c : Option AnalysisEvidence) (n : AnalysisEvidence) (a : Option EvidenceAuthorization)
    → moves (compare_evidence c n a).decision ≡ true
    → (one_of n.status ("COMPLETE" ∷ "PARTIAL" ∷ []) && n.usable) ≡ true
unfolding compare_evidence decided
compare_evidence_eligible none n a h =
    (moves_after (admitted n) (ok (initial n)) (admitted-Passes n) h).0.0
compare_evidence_eligible (some c) n a h = (moves_after (admitted n) _ (admitted-Passes n) h).0.0
