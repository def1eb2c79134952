-- ===== src/Evidence/Comparison/Contract.antt =====
-- Every decision of `compare_evidence` (evidence_comparison.py) is one that its contract lists.
use crash_cap.Base.{
  ◌≡◌, refl, Bool, true, false, not, ◌&&◌, Option, none, some, List, [], ◌∷◌, if◌then◌else◌, ok,
  err, ◌>>=◌, ◌>>◌, inl, inr, Bool-cases, arith,
}
use crash_cap.Base.Keys.{◌==◌, text_keys}
use crash_cap.Evidence.{ModuleEvidence, one_of, is_digest}
use crash_cap.Evidence.Shape.{AnalysisEvidence, EvidenceAuthorization, covers, shape_valid}
use crash_cap.Evidence.Decision.{Verdict, Course, Findings, Loss, same_fault}
use crash_cap.Evidence.Decision.Contract.{
  listed, decision_contract, no_digest_or, IsListed, Returns, goes_on, returns, require-Returns,
  check-Returns,
}
use crash_cap.Base.Sorting.{str_lt}
use crash_cap.Evidence.Modules.{same_keys, classify, compare_modules}
use crash_cap.Evidence.Modules.Returns.{classify-Returns, compare_modules-Returns}
use crash_cap.Evidence.Frames.{compare_frames}
use crash_cap.Evidence.Frames.Returns.{compare_frames-Returns}
use crash_cap.Evidence.Comparison.{
  audit_sha256_of, admitted, succeeds, comparable, same_setting, some_loss, of_system, classed,
  is_unknown, is_permanent, judge, judge_losses, judge_kept, compare_details, returned, authorized,
  reviewed, decided, audited, compare_evidence,
}

-- The verdict that is returned in the end is listed, too.
Ends : Course Verdict → Type 0
Ends m = IsListed (returned m)

bind-Ends :
    {A : Type 0} (m : Course A) (k : A → Course Verdict)
    → Returns m
    → ((x : A) → Ends (k x))
    → Ends (m >>= k)
unfolding Ends
bind-Ends _ k (goes_on x) h = h x
bind-Ends _ k (returns v e) h = e

admitted-Returns : (n : AnalysisEvidence) → Returns (admitted n)
unfolding admitted listed one_of
admitted-Returns n =
    check-Returns (one_of n.status ("COMPLETE" ∷ "PARTIAL" ∷ []) && n.usable) _ _ refl (
      check-Returns (one_of n.provenance ("native_2.0" ∷ "verified_raw_mapping" ∷ [])) _ _ refl
        (require-Returns (shape_valid n) _ refl))

succeeds-Returns : (c n : AnalysisEvidence) → Returns (succeeds c n)
unfolding succeeds listed one_of
succeeds-Returns c n =
    check-Returns (c.occurrence_id == n.occurrence_id && c.dump_sha256 == n.dump_sha256) _ _ refl
      (require-Returns (str_lt c.run_id n.run_id) _ refl)

comparable-Returns : (c n : AnalysisEvidence) → Returns (comparable c n)
unfolding comparable listed one_of
comparable-Returns c n =
    check-Returns (one_of n.reason ("symbol_refresh" ∷ "manual" ∷ [])) _ _ refl (
      check-Returns (not (c.provenance == "insufficient") && c.usable) _ _ refl (
        check-Returns (c.pair_evidence_complete && n.pair_evidence_complete) _ _ refl (
          check-Returns (same_setting c n) _ _ refl (
            check-Returns (same_fault c.fault n.fault) _ _ refl
              (require-Returns (shape_valid c && same_keys c.modules n.modules) _ refl)))))

if-IsListed : (b : Bool) (u v : Verdict) → IsListed u → IsListed v → IsListed (if b then u else v)
if-IsListed true u v h k = h
if-IsListed false u v h k = k

judge_kept-IsListed : (ms ns : List ModuleEvidence) (s : Findings) → IsListed (judge_kept ms ns s)
unfolding judge_kept listed one_of
judge_kept-IsListed ms ns s = elim (Bool-cases s.improved) [ inl e ↦ rw e refl | inr e ↦ rw e refl ]

judge_losses-IsListed :
    (ms ns : List ModuleEvidence) (s : Findings) → IsListed (judge_losses ms ns s)
unfolding judge_losses listed one_of
judge_losses-IsListed ms ns s =
    let only_system = not (some_loss (λ l. not (of_system ms l)) s.losses) in
    if-IsListed (some_loss (classed is_unknown ns) s.losses) _ _ refl (
      if-IsListed (some_loss (classed is_permanent ns) s.losses) _ _ refl (
        if-IsListed (some_loss (λ l. l.business) s.losses) _ _ refl (
          if-IsListed (only_system && s.business_improved) _ _ refl
            (elim (Bool-cases only_system) [ inl e ↦ rw e refl | inr e ↦ rw e refl ]))))

either-IsListed :
    (ls : List Loss) (u v : Verdict)
    → IsListed u
    → IsListed v
    → IsListed (elim ls [ [] ↦ u | l ∷ ls' ↦ v ])
either-IsListed [] u v h k = h
either-IsListed (l ∷ ls) u v h k = k

judge-IsListed : (ms ns : List ModuleEvidence) (s : Findings) → IsListed (judge ms ns s)
judge-IsListed ms ns s =
    either-IsListed s.losses (judge_kept ms ns s) (judge_losses ms ns s)
      (judge_kept-IsListed ms ns s) (judge_losses-IsListed ms ns s)

compare_details-Ends : (c n : AnalysisEvidence) → Ends (compare_details c n)
unfolding compare_details Ends
compare_details-Ends c n =
    bind-Ends (classify _ n.modules c.modules _) _ (classify-Returns _ n.modules c.modules _) (λ r.
      bind-Ends (compare_frames c.fault.thread_id n.fault.thread_id _ n.frames r.1) _
        (compare_frames-Returns c.fault.thread_id n.fault.thread_id _ n.frames r.1)
        (λ s1.
          bind-Ends (compare_modules n.modules r.0 s1) _ (compare_modules-Returns n.modules r.0 s1)
            (λ s2. judge-IsListed r.0 n.modules s2)))

if-Ends : (b : Bool) (m n : Course Verdict) → Ends m → Ends n → Ends (if b then m else n)
if-Ends true m n h k = h
if-Ends false m n h k = k

reviewed-IsListed : (c n : AnalysisEvidence) → IsListed (reviewed c n)
unfolding listed one_of
reviewed-IsListed c n = if-IsListed (n.reason == "evidence_correction") _ _ refl refl

decided-Ends :
    (c : Option AnalysisEvidence) (n : AnalysisEvidence) (a : Option EvidenceAuthorization)
    → Ends (decided c n a)
unfolding decided Ends listed one_of
decided-Ends none n a = bind-Ends (admitted n) _ (admitted-Returns n) (λ u. refl)
decided-Ends (some c) n a = bind-Ends (admitted n) _ (admitted-Returns n) (λ u.
    bind-Ends (succeeds c n) _ (succeeds-Returns c n) (λ v.
      if-Ends (authorized a c n) (ok (reviewed c n)) (comparable c n >> compare_details c n)
        (reviewed-IsListed c n)
        (bind-Ends (comparable c n) _ (comparable-Returns c n) (λ w. compare_details-Ends c n))))

covers-digest :
    (a : EvidenceAuthorization) (c n : AnalysisEvidence)
    → covers a c n ≡ true
    → is_digest (some a.audit_sha256) ≡ true
unfolding covers
covers-digest a c n h = ground (arith, h)

-- The audit that a decision names has a digest.
named :
    (a : Option EvidenceAuthorization) (c n : AnalysisEvidence)
    → no_digest_or (audit_sha256_of (if authorized a c n then a else none)) ≡ true
named none c n = refl
named (some a) c n = elim (Bool-cases (covers a c n && n.pair_evidence_complete)) [
  | inl e ↦ rw e (covers-digest a c n (ground (arith, e)))
  | inr e ↦ rw e refl
]

kept_or_none :
    (m : Course (Unit {0})) (b : Option EvidenceAuthorization)
    → no_digest_or (audit_sha256_of b) ≡ true
    → no_digest_or (audit_sha256_of (elim m [ ok u ↦ b | err v ↦ none ])) ≡ true
kept_or_none (ok u) b h = h
kept_or_none (err v) b h = refl

audited_named :
    (c : Option AnalysisEvidence) (n : AnalysisEvidence) (a : Option EvidenceAuthorization)
    → no_digest_or (audit_sha256_of (audited c n a)) ≡ true
unfolding audited
audited_named none n a = refl
audited_named (some c) n a = kept_or_none (admitted n >> succeeds c n) _ (named a c n)

all_three : (a b c : Bool) → b ≡ true → c ≡ true → (a && b && c) ≡ a
all_three a b c h k = ground (arith, h, k)

-- Whatever is compared, the decision satisfies its contract, exactly if the Run of the candidate has an id.
pub decision_contract-compare_evidence :
    (c : Option AnalysisEvidence) (n : AnalysisEvidence) (a : Option EvidenceAuthorization)
    → decision_contract (compare_evidence c n a) ≡ not (n.run_id == "")
unfolding decision_contract compare_evidence Ends
decision_contract-compare_evidence c n a =
    all_three (not (n.run_id == "")) _ _ (decided-Ends c n a) (audited_named c n a)
