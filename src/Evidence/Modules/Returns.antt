-- ===== src/Evidence/Modules/Returns.antt =====
-- What the comparison of modules returns early (evidence_comparison.py).
use crash_cap.Base.{refl, Bool, true, not, ◌&&◌, ◌++◌, List, [], ◌∷◌, ok}
use crash_cap.Evidence.{ModuleEvidence, one_of}
use crash_cap.Evidence.Decision.{Findings, incomparable, classification_delta, pair_delta}
use crash_cap.Base.Keys.{◌==◌, text_keys}
use crash_cap.Evidence.Decision.Contract.{
  listed, Returns, goes_on, returns, bind-Returns, if-Returns,
}
use crash_cap.Evidence.Modules.{
  same_identity, same_class, refined, counterpart, corrected, symbols_lost, selected, classify,
  compare_modules,
}

pub classify-Returns :
    (same_context : Bool) (ns ms : List ModuleEvidence) (s : Findings)
    → Returns (classify same_context ns ms s)
unfolding classify listed one_of
classify-Returns same_context ns [] s = goes_on _
classify-Returns same_context ns (m ∷ ms) s =
    let n = counterpart ns m in
    let s' = record s {
      improved = true;
      differences = s.differences ++ classification_delta m.index m.role n.role ∷ [];
    } in
    let m' = record m { role = n.role; in_app = n.in_app } in
    let mismatch = returns (incomparable "context_mismatch" s.differences) refl in
    if-Returns (not (same_identity m n)) _ _ mismatch (
      if-Returns (same_class m n) _ _
        (bind-Returns (classify same_context ns ms s) (λ r. ok (m ∷ r.0, r.1))
          (classify-Returns same_context ns ms s) (λ r. goes_on _))
        (if-Returns (refined same_context m n) _ _
          (bind-Returns (classify same_context ns ms s') (λ r. ok (m' ∷ r.0, r.1))
            (classify-Returns same_context ns ms s') (λ r. goes_on _))
          mismatch))

pub compare_modules-Returns :
    (ns ms : List ModuleEvidence) (s : Findings) → Returns (compare_modules ns ms s)
unfolding compare_modules listed one_of
compare_modules-Returns ns [] s = goes_on s
compare_modules-Returns ns (m ∷ ms) s =
    let n = counterpart ns m in
    let ds = s.differences ++ pair_delta m.index m.pair_id n.pair_id ∷ [] in
    if-Returns (corrected m n) _ _ (returns (incomparable "correction_required" ds) refl) (
      if-Returns (m.selection_state == "unique" && not (n.selection_state == "unique")) _ _
        (returns (incomparable "selection_evidence_incomplete" s.differences) refl)
        (compare_modules-Returns ns ms (symbols_lost m n (selected m n s))))
