-- ===== src/Demands/Inspections.antt =====
-- The inspection of a dump is registered and its modules become the references of the demand:
-- `register_inspection` (analysis_demands.py).
use crash_cap.Base.{
  ℕ, ◌+◌, String, Bool, true, false, not, ◌&&◌, Option, none, some, List, [], ◌∷◌, ◌++◌, map,
  nat_eq, keep_if, if◌then◌else◌, Result, ok, err, ◌>>=◌, ◌>>◌, require, present,
}
use crash_cap.Base.Keys.{◌==◌, text_keys}
use crash_cap.Base.Table
use crash_cap.Evidence.Decision.{same_text}
use crash_cap.FrozenInputs.{ModuleIdentity}
use crash_cap.Demand.{AnalysisDemand, preparing, cannot_recompute}
use crash_cap.Demands.Rows.{
  DumpBlob, Occurrence, DumpInspection, Tables, DemandError, unsupported_inspector,
  provenance_missing, inspection_dump_mismatch, different_evidence, row_missing, live, demand_at,
  occurrence_at, blob_at, save_demand,
}
use crash_cap.Demands.Targets.{inspection_key, same_identity}
use crash_cap.Demands.Fanout.{DumpSymbolReference, Feed}

pub record InspectionEvidence : Type 0 where
  pub dump_sha256 : String
  pub dump_size : ℕ
  pub inspector_version : String
  pub inspector_provenance : String
  pub object_key : String
  pub object_sha256 : String
  pub modules : List (ℕ × ModuleIdentity)

-- The libraries' part: `str.lower`, and the digest of the JSON list of five texts that names an inspection.
pub record InspectionTexts : Type 0 where
  pub lower : String → String
  pub digest : List String → String

-- `inspection.modules == list(evidence.modules)`
abbrev same_inspected : List (ℕ × ModuleIdentity) → List (ℕ × ModuleIdentity) → Bool
same_inspected [] [] = true
same_inspected ((i, a) ∷ is) ((j, b) ∷ js) = nat_eq i j && same_identity a b && same_inspected is js
same_inspected _ _ = false

-- INSPECTOR_VERSION
abbrev inspector : String
inspector = "inspect-v0.1"

-- What the call reads: the demand, its occurrence and the dump.
unfoldable pub subject :
    String
    → InspectionEvidence
    → Tables
    → Result DemandError (AnalysisDemand × (Occurrence × DumpBlob))
subject id e db = do
  require (e.inspector_version == inspector) unsupported_inspector
  require (not (e.inspector_provenance == "")) provenance_missing
  d ← demand_at id db
  o ← present (occurrence_at d.occurrence_id db) row_missing
  b ← present (blob_at o.dump_blob_id db) row_missing
  ok (d, (o, b))

abbrev new_inspection : String → DumpBlob → InspectionEvidence → DumpInspection
new_inspection id blob e = record {
  id = id;
  dump_blob_id = blob.id;
  inspector_version = e.inspector_version;
  inspector_provenance = e.inspector_provenance;
  dump_sha256 = e.dump_sha256;
  dump_size = e.dump_size;
  object_key = e.object_key;
  object_sha256 = e.object_sha256;
  modules = e.modules;
}

-- The stored inspection, which must say the same, or a new one.
abbrev agreed_inspection :
    String
    → DumpBlob
    → InspectionEvidence
    → Option DumpInspection
    → Result DemandError DumpInspection
agreed_inspection id blob e none = ok (new_inspection id blob e)
agreed_inspection id blob e (some i) = do
  require
      (i.object_sha256 == e.object_sha256
        && same_inspected i.modules e.modules
        && i.dump_blob_id == blob.id)
      different_evidence
  ok i

unfoldable pub inspected_as :
    InspectionTexts → DumpBlob → InspectionEvidence → Tables → Result DemandError DumpInspection
inspected_as s blob e db = do
  require (s.lower blob.sha256 == e.dump_sha256 && nat_eq blob.size e.dump_size)
      inspection_dump_mismatch
  let id = s.digest (
      "dump-inspection-v2"
      ∷ blob.workspace_id
      ∷ s.lower blob.sha256
      ∷ e.inspector_version
      ∷ e.inspector_provenance
      ∷ [])
  agreed_inspection id blob e (Table.row_at inspection_key id db.inspections)

abbrev reference_of : String → String → (ℕ × ModuleIdentity) → DumpSymbolReference
reference_of occurrence inspection (index, identity) = record {
  occurrence_id = occurrence;
  module_index = index;
  inspection_id = inspection;
  code_id = identity.code_id;
  debug_id = identity.debug_id;
  architecture = identity.architecture;
}

abbrev refer_to : Occurrence → DumpInspection → Feed → Feed
refer_to o i f = record f {
  references =
      keep_if (λ r. not (r.occurrence_id == o.id)) f.references
      ++ map (reference_of o.id i.id) i.modules;
}

-- A demand that is planned anew for an inspection.
abbrev pub registered : String → ℕ → ℕ → AnalysisDemand → AnalysisDemand
registered inspection revision now d = record d {
  inspection_id = some inspection;
  index_revision = revision;
  change_sequence = d.change_sequence + 1;
  state = preparing;
  not_before = some now;
  updated_at = now;
}

abbrev pub unregistered : ℕ → AnalysisDemand → AnalysisDemand
unregistered now d = record d {
  state = cannot_recompute;
  reason = "DUMP_UNAVAILABLE";
  updated_at = now;
}

-- What a call returns or raises, and the tables after it.
abbrev pub Registration : Type 0
Registration = Result DemandError (Option DumpInspection) × (Feed × Tables)

unfoldable pub referred :
    ℕ
    → AnalysisDemand
    → Occurrence
    → Result DemandError DumpInspection
    → Feed
    → Tables
    → Registration
referred now d o (err x) f db = (err x, (f, db))
referred now d o (ok i) f db =
    let stored = record db { inspections = Table.save inspection_key i db.inspections } in
    if same_text d.inspection_id (some i.id)
    then (ok (some i), (f, stored))
    else (ok (some i), (refer_to o i f, save_demand (registered i.id db.revision now d) stored))

unfoldable pub registered_for :
    InspectionTexts
    → ℕ
    → InspectionEvidence
    → Result DemandError (AnalysisDemand × (Occurrence × DumpBlob))
    → Feed
    → Tables
    → Registration
unfolding referred inspected_as
registered_for s now e (err x) f db = (err x, (f, db))
registered_for s now e (ok (d, (o, blob))) f db =
    if live blob now
    then referred now d o (inspected_as s blob e db) f db
    else (ok none, (f, save_demand (unregistered now d) db))

unfoldable pub register_inspection :
    InspectionTexts → String → InspectionEvidence → ℕ → Feed → Tables → Registration
unfolding registered_for subject
register_inspection s id e now f db = registered_for s now e (subject id e db) f db
