-- ===== src/Demands/Targets.antt =====
-- A plan becomes the target of a demand: `freeze_target` (analysis_demands.py).
pub mod Replay
pub mod Frozen
use crash_cap.Base.{
  ℕ, ◌+◌, String, Bool, true, false, not, ◌&&◌, ◌||◌, Option, none, some, List, [], ◌∷◌, ◌++◌,
  nat_eq, ltb, first_where, if◌then◌else◌, Result, ok, err, ◌>>=◌, ◌>>◌, require, present,
}
use crash_cap.Base.Keys.{◌==◌, text_keys}
use crash_cap.Base.Table
use crash_cap.Evidence.{one_of, is_digest}
use crash_cap.Evidence.Decision.{same_text}
use crash_cap.Demand.{AnalysisDemand, preparing}
use crash_cap.Demands.Rows.{
  DumpInspection, AnalysisDemandTarget, Tables, DemandError, stale_plan, inspection_required,
  dump_unavailable, invalid_manifest, invalid_selection, snapshot_changed, inspection_mismatch,
  modules_mismatch, invalid_context, invalid_cause, live, demand_at, blob_at, save_demand,
}
use crash_cap.Demands.Changes.{is_held}
use crash_cap.FrozenInputs.{
  ModuleIdentity, Selection, Manifest, FrozenInputError, verify_selection, Fingerprinted,
  resolution_fingerprint,
}

abbrev pub inspection_key : DumpInspection → String
inspection_key i = i.id

-- `session.get(DumpInspection, demand.inspection_id) if demand.inspection_id else None`
abbrev inspection_of : Option String → List DumpInspection → Option DumpInspection
inspection_of none is = none
inspection_of (some id) is = Table.row_at inspection_key id is

-- `session.get(AnalysisDemandTarget, (demand_id, generation))`
abbrev pub of_generation : String → ℕ → AnalysisDemandTarget → Bool
of_generation id generation t = t.demand_id == id && nat_eq t.generation generation

unfoldable pub target_of : AnalysisDemand → List AnalysisDemandTarget → Option AnalysisDemandTarget
target_of d ts =
    if ltb 0 d.generation then first_where (of_generation d.id d.generation) ts else none

abbrev pub same_identity : ModuleIdentity → ModuleIdentity → Bool
same_identity a b =
    same_text a.code_id b.code_id
    && same_text a.debug_id b.debug_id
    && a.architecture == b.architecture

-- The modules of the manifest are those that were inspected.
abbrev same_modules : List Selection → List (ℕ × ModuleIdentity) → Bool
same_modules [] [] = true
same_modules (s ∷ ss) ((index, identity) ∷ ms) =
    nat_eq s.module_index index && same_identity s.identity identity && same_modules ss ms
same_modules _ _ = false

abbrev all_verified : List Selection → Bool
all_verified [] = true
all_verified (s ∷ ss) = elim (verify_selection s) [ ok u ↦ all_verified ss | err e ↦ false ]

-- What the planner hands over.
pub record Plan : Type 0 where
  pub manifest : Manifest
  pub manifest_object_key : String
  pub context_sha256 : String
  pub cause : String

-- The libraries' part: the validation by resolution-manifest-v1.schema.json, and digests of canonical JSON.
pub record Digests : Type 0 where
  pub conforms : Manifest → Bool
  pub fingerprint : Fingerprinted → String
  pub digest : Manifest → String

abbrev causes : List String
causes =
    "initial" ∷ "symbol_refresh" ∷ "role_change" ∷ "engine_upgrade" ∷ "evidence_correction"
    ∷ "manual" ∷ []

-- What `freeze_target` checks of a demand whose inspection and change sequence are these.
unfoldable pub plan_checks :
    Digests → ℕ → Plan → ℕ → Tables → Option String → ℕ → Result DemandError DumpInspection
plan_checks s sequence p now db inspection current = do
  require (nat_eq current sequence) stale_plan
  i ← present (inspection_of inspection db.inspections) inspection_required
  b ← present (blob_at i.dump_blob_id db) dump_unavailable
  require (live b now) dump_unavailable
  require (s.conforms p.manifest) invalid_manifest
  require (all_verified p.manifest.modules) invalid_selection
  require (nat_eq p.manifest.catalog_revision db.revision) snapshot_changed
  require
      (p.manifest.dump_sha256 == i.dump_sha256
        && p.manifest.inspect_sha256 == i.object_sha256
        && p.manifest.inspector_version == i.inspector_version)
      inspection_mismatch
  require (same_modules p.manifest.modules i.modules) modules_mismatch
  require (not (p.manifest_object_key == "") && is_digest (some p.context_sha256)) invalid_context
  require (one_of p.cause causes) invalid_cause
  ok i

unfoldable pub freezable :
    Digests → String → ℕ → Plan → ℕ → Tables → Result DemandError (AnalysisDemand × DumpInspection)
unfolding plan_checks
freezable s id sequence p now db = do
  d ← demand_at id db
  i ← plan_checks s sequence p now db d.inspection_id d.change_sequence
  ok (d, i)

-- `same_target`
unfoldable pub same_target : Digests → Plan → Option AnalysisDemandTarget → Bool
same_target s p none = false
same_target s p (some t) =
    t.resolution_fingerprint == resolution_fingerprint s.fingerprint p.manifest
    && t.context_sha256 == p.context_sha256
    && t.cause == p.cause

-- `manual_cycle`
abbrev pub manual_cycle : Plan → ℕ → AnalysisDemand → Bool
manual_cycle p sequence d = p.cause == "manual" && ltb d.planned_sequence sequence

abbrev new_target : Digests → Plan → ℕ → ℕ → DumpInspection → AnalysisDemand → AnalysisDemandTarget
new_target s p revision now i d = record {
  demand_id = d.id;
  generation = d.generation + 1;
  inspection_id = i.id;
  resolution_fingerprint = resolution_fingerprint s.fingerprint p.manifest;
  context_sha256 = p.context_sha256;
  cause = p.cause;
  manifest_object_key = p.manifest_object_key;
  manifest_sha256 = s.digest p.manifest;
  catalog_revision = revision;
  created_at = now;
}

-- A demand that starts a generation.
abbrev pub next_generation : AnalysisDemand → AnalysisDemand
next_generation d = record d {
  generation = d.generation + 1;
  retry_attempt = 0;
  state = if is_held d.state then d.state else preparing;
}

-- A demand whose changes up to `sequence` are planned.
unfoldable pub planned : ℕ → ℕ → ℕ → AnalysisDemand → AnalysisDemand
planned sequence revision now d = record d {
  planned_sequence = sequence;
  index_revision = revision;
  first_event_at = none;
  last_event_at = none;
  not_before = some now;
  updated_at = now;
}

abbrev pub Freezing : Type 0
Freezing = Result DemandError AnalysisDemandTarget × Tables

-- The target of the generation, if it is the same, or that of a new generation.
unfoldable pub adopted :
    Digests
    → ℕ
    → Plan
    → ℕ
    → AnalysisDemand
    → DumpInspection
    → Option AnalysisDemandTarget
    → Tables
    → Freezing
unfolding planned same_target
adopted s sequence p now d i none db =
    let t = new_target s p db.revision now i d in
    (
      ok t,
      record (save_demand (planned sequence db.revision now (next_generation d)) db) {
        targets = db.targets ++ t ∷ [];
      },
    )
adopted s sequence p now d i (some t0) db =
    let t = new_target s p db.revision now i d in
    if manual_cycle p sequence d || not (same_target s p (some t0))
    then (
      ok t,
      record (save_demand (planned sequence db.revision now (next_generation d)) db) {
        targets = db.targets ++ t ∷ [];
      },
    )
    else (ok t0, save_demand (planned sequence db.revision now d) db)

frozen :
    Digests
    → ℕ
    → Plan
    → ℕ
    → Result DemandError (AnalysisDemand × DumpInspection)
    → Tables
    → Freezing
unfolding adopted
frozen s sequence p now (err e) db = (err e, db)
frozen s sequence p now (ok (d, i)) db = adopted s sequence p now d i (target_of d db.targets) db

unfoldable pub freeze_target : Digests → String → ℕ → Plan → ℕ → Tables → Freezing
unfolding frozen
freeze_target s id sequence p now db = frozen s sequence p now (freezable s id sequence p now db) db
