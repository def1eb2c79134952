-- ===== src/Evidence/Modules.antt =====
-- The comparison of the modules of two analyses (`compare_evidence` of evidence_comparison.py).
pub mod Returns
pub mod Agreeing
use crash_cap.Base.{
  String, Bool, true, false, not, ◌&&◌, ◌||◌, none, some, List, [], ◌∷◌, ◌++◌, map, if◌then◌else◌,
  nat_eq, ok, err, ◌>>=◌, or_else,
}
use crash_cap.Base.Keys.{◌==◌, text_keys}
use crash_cap.Evidence.{ModuleEvidence, FrameEvidence, one_of, some_module}
use crash_cap.Evidence.Shape.{same_flag, module_at}
use crash_cap.Evidence.Sources.{LossClass, transient, some_source, loss_class}
use crash_cap.Evidence.Decision.{
  Delta, classification_delta, pair_delta, status_delta, failure_delta, Findings, Course,
  incomparable, note_delta, note_loss, same_text,
}

-- `old_modules.keys() == new_modules.keys()`
abbrev within : List ModuleEvidence → List ModuleEvidence → Bool
within [] ns = true
within (m ∷ ms) ns = some_module (λ n. nat_eq n.index m.index) ns && within ms ns

abbrev pub same_keys : List ModuleEvidence → List ModuleEvidence → Bool
same_keys ms ns = within ms ns && within ns ms

-- `new_modules[index]`, which is there since the keys are the same.
abbrev pub counterpart : List ModuleEvidence → ModuleEvidence → ModuleEvidence
counterpart ns m = or_else (module_at m.index ns) m

abbrev same_identity : ModuleEvidence → ModuleEvidence → Bool
same_identity m n =
    let (a, b, c) = m.identity in
    let (a', b', c') = n.identity in same_text a a' && same_text b b' && c == c'

abbrev same_class : ModuleEvidence → ModuleEvidence → Bool
same_class m n = m.role == n.role && same_flag m.in_app n.in_app

-- A role of the catalog's defaults that became more telling, in the same context.
abbrev refined : Bool → ModuleEvidence → ModuleEvidence → Bool
refined same_context m n =
    m.role_source == n.role_source
    && n.role_source == "catalog_default"
    && ((m.role == "unknown" && n.role == "dependency")
        || (m.role == "unknown" && n.role == "owned")
        || (m.role == "dependency" && n.role == "owned"))
    && same_context

-- The first loop over the modules: the old ones as they are classified now.
pub classify :
    Bool
    → List ModuleEvidence
    → List ModuleEvidence
    → Findings
    → Course (List ModuleEvidence × Findings)
classify same_context ns [] s = ok ([], s)
classify same_context ns (m ∷ ms) s =
    let n = counterpart ns m in
    let m' = record m { role = n.role; in_app = n.in_app } in
    let s' = record s {
      improved = true;
      differences = s.differences ++ classification_delta m.index m.role n.role ∷ [];
    } in
    let unchanged = classify same_context ns ms s >>= λ r. ok (m ∷ r.0, r.1) in
    let changed = classify same_context ns ms s' >>= λ r. ok (m' ∷ r.0, r.1) in
    if not (same_identity m n)
    then err (incomparable "context_mismatch" s.differences)
    else if same_class m n
    then unchanged
    else if refined same_context m n
    then changed
    else err (incomparable "context_mismatch" s.differences)

-- `replace(frame, in_app=old_modules[frame.module_index].in_app)`
abbrev reclassified : List ModuleEvidence → FrameEvidence → FrameEvidence
reclassified ms f = record f {
  in_app = elim (module_at f.module_index ms) [ none ↦ f.in_app | some m ↦ m.in_app ];
}

pub reclassify : List ModuleEvidence → List FrameEvidence → List FrameEvidence
reclassify ms fs = map (reclassified ms) fs

abbrev corrected : ModuleEvidence → ModuleEvidence → Bool
corrected m n =
    m.selection_state == "unique"
    && (one_of n.selection_state ("conflict" ∷ "unavailable" ∷ [])
        || (n.selection_state == "unique" && not (same_text m.pair_id n.pair_id)))

abbrev selected : ModuleEvidence → ModuleEvidence → Findings → Findings
selected m n s =
    if m.selection_state == "none" && n.selection_state == "unique"
    then record s { improved = true }
    else s

abbrev symbols_lost : ModuleEvidence → ModuleEvidence → Findings → Findings
symbols_lost m n s =
    if m.symbol_status == "found" && not (n.symbol_status == "found")
    then note_delta (status_delta m.index m.symbol_status n.symbol_status)
        (note_loss m.index "symbols" m.in_app s)
    else s

-- The second loop over the modules.
pub compare_modules : List ModuleEvidence → List ModuleEvidence → Findings → Course Findings
compare_modules ns [] s = ok s
compare_modules ns (m ∷ ms) s =
    let n = counterpart ns m in
    let rest = compare_modules ns ms (symbols_lost m n (selected m n s)) in
    if corrected m n
    then err (
        incomparable "correction_required"
          (s.differences ++ pair_delta m.index m.pair_id n.pair_id ∷ []))
    else if m.selection_state == "unique" && not (n.selection_state == "unique")
    then err (incomparable "selection_evidence_incomplete" s.differences)
    else rest

abbrev is_transient : LossClass → Bool
is_transient transient = true
is_transient _ = false

-- `any(source.stage in {"download_pe", "unwind"} and source.outcome == "found" ...)`
abbrev unwound : ModuleEvidence → Bool
unwound n =
    some_source (λ t. one_of t.stage ("download_pe" ∷ "unwind" ∷ []) && t.outcome == "found")
      n.sources

-- Whether a stage of a module still fails in passing.
abbrev still_fails : ModuleEvidence → ModuleEvidence → String → Bool
still_fails m n stage =
    not (if stage == "symbols" then n.symbol_status == "found" else unwound n)
    && is_transient (loss_class m stage)
    && is_transient (loss_class n stage)

abbrev note_failing :
    ModuleEvidence → ModuleEvidence → String → Bool × List Delta → Bool × List Delta
note_failing m n stage (retry, ds) =
    if still_fails m n stage then (true, ds ++ failure_delta m.index stage ∷ []) else (retry, ds)

pub failing_stages :
    List ModuleEvidence → List ModuleEvidence → Bool × List Delta → Bool × List Delta
failing_stages ns [] r = r
failing_stages ns (m ∷ ms) r =
    let n = counterpart ns m in
    failing_stages ns ms (note_failing m n "unwind" (note_failing m n "symbols" r))
