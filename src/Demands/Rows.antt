-- ===== src/Demands/Rows.antt =====
-- What analysis_demands.py reads beside a demand: the occurrence and its dump
-- (platform/api/crashcap_api/models.py), and its errors.
use crash_cap.Base.{
  ℕ, String, Bool, true, not, ◌&&◌, Option, none, some, List, is_some, ltb, Result, present,
}
use crash_cap.Base.Keys.{◌==◌, text_keys}
use crash_cap.Base.Table
use crash_cap.Demand.{AnalysisDemand}
use crash_cap.FrozenInputs.{ModuleIdentity}

-- The columns of `DumpBlob` that the service reads.
pub record DumpBlob : Type 0 where
  pub id : String
  pub workspace_id : String
  pub sha256 : String
  pub size : ℕ
  pub verification_status : String
  pub expires_at : Option ℕ
  pub deleted_at : Option ℕ

pub record Occurrence : Type 0 where
  pub id : String
  pub workspace_id : String
  pub dump_blob_id : String

pub record DumpInspection : Type 0 where
  pub id : String
  pub dump_blob_id : String
  pub inspector_version : String
  pub inspector_provenance : String
  pub dump_sha256 : String
  pub dump_size : ℕ
  pub object_key : String
  pub object_sha256 : String
  pub modules : List (ℕ × ModuleIdentity)

pub record AnalysisDemandTarget : Type 0 where
  pub demand_id : String
  pub generation : ℕ
  pub inspection_id : String
  pub resolution_fingerprint : String
  pub context_sha256 : String
  pub cause : String
  pub manifest_object_key : String
  pub manifest_sha256 : String
  pub catalog_revision : ℕ
  pub created_at : ℕ

-- `revision` is that of the catalog's watermark, which the calls lock.
pub record Tables : Type 0 where
  pub occurrences : List Occurrence
  pub blobs : List DumpBlob
  pub demands : List AnalysisDemand
  pub inspections : List DumpInspection
  pub targets : List AnalysisDemandTarget
  pub revision : ℕ

-- The reasons of DemandError. `invalid_selection` stands for the FrozenInputError that `verify_selection`
-- raises, and `row_missing` for a failed `assert` or `.one()`.
pub data DemandError : Type 0 where
  disabled paused demand_not_found stale_demand not_exhausted : DemandError
  occurrence_not_found scope_mismatch dump_unavailable : DemandError
  stale_plan inspection_required invalid_manifest invalid_selection snapshot_changed : DemandError
  inspection_mismatch modules_mismatch invalid_context invalid_cause : DemandError
  limit_invalid workspace_not_found event_gap row_missing : DemandError
  unsupported_inspector provenance_missing inspection_dump_mismatch different_evidence : DemandError

-- `blob.expires_at is None or blob.expires_at > now`
abbrev pub unexpired : Option ℕ → ℕ → Bool
unexpired none now = true
unexpired (some t) now = ltb now t

-- _live
unfoldable pub live : DumpBlob → ℕ → Bool
live blob now =
    blob.verification_status == "ACCEPTED"
    && not (is_some blob.deleted_at)
    && unexpired blob.expires_at now

abbrev pub demand_key : AnalysisDemand → String
demand_key d = d.id

abbrev pub occurrence_key : Occurrence → String
occurrence_key o = o.id

abbrev pub blob_key : DumpBlob → String
blob_key b = b.id

-- _demand
unfoldable pub demand_at : String → Tables → Result DemandError AnalysisDemand
demand_at id db = present (Table.row_at demand_key id db.demands) demand_not_found

unfoldable pub occurrence_at : String → Tables → Option Occurrence
occurrence_at id db = Table.row_at occurrence_key id db.occurrences

unfoldable pub blob_at : String → Tables → Option DumpBlob
blob_at id db = Table.row_at blob_key id db.blobs

unfoldable pub save_demand : AnalysisDemand → Tables → Tables
save_demand d db = record db { demands = Table.save demand_key d db.demands }

-- What a call returns or raises, and the tables after it.
abbrev pub Change : Type 0
Change = Result DemandError AnalysisDemand × Tables
