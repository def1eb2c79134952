-- ===== src/Uploads.antt =====
-- Uploads: platform/api/crashcap_api/services/uploads.py and the table of states of
-- platform/api/crashcap_api/services/common.py.
pub mod Sizes
pub mod Completion
pub mod History
mod Tests
use crash_cap.Base.{
  ℕ, zero, ◌+◌, ◌*◌, ◌^◌, String, Bool, true, false, not, ◌&&◌, ◌||◌, Option, none, some, List, [],
  ◌∷◌, if◌then◌else◌, nat_eq, leb, ltb, is_some, or_else, seconds, Result, ok, err, ◌>>=◌, ◌>>◌,
  require, present,
}
use crash_cap.Base.Keys.{◌==◌, text_keys}
use crash_cap.Base.Table
use crash_cap.Tasks.Message.{Message, Value, text, TaskError}
use crash_cap.Tasks.Rows.{Db, TaskIntent}
use crash_cap.Tasks.Intents.{stage_task_message}

-- UPLOAD_STATUSES
pub data UploadStatus : Type 0 where
  initialized uploading uploaded verifying accepted quarantined rejected : UploadStatus

-- UPLOAD_TRANSITIONS
unfoldable pub upload_allowed : UploadStatus → UploadStatus → Bool
upload_allowed initialized uploading = true
upload_allowed initialized uploaded = true
upload_allowed uploading uploaded = true
upload_allowed uploaded verifying = true
upload_allowed verifying accepted = true
upload_allowed verifying quarantined = true
upload_allowed verifying rejected = true
upload_allowed _ _ = false

pub data FileKind : Type 0 where
  dmp pe pdb : FileKind

abbrev is_dmp : FileKind → Bool
is_dmp dmp = true
is_dmp _ = false

abbrev pub mebibytes : ℕ → ℕ
mebibytes n = n * 1048576

-- FILE_LIMITS
abbrev pub file_limit : FileKind → ℕ
file_limit dmp = mebibytes 256
file_limit pe = mebibytes 512
file_limit pdb = mebibytes 2048

-- The codes of the ApiErrors, and what staging a task raises.
pub data UploadError : Type 0 where
  not_found public_dmp_not_allowed unsupported_dump dump_too_large validation conflict : UploadError
  staging : TaskError → UploadError

-- A row of uploads: the columns that these operations decide by or set.
pub record Upload : Type 0 where
  pub id : String
  pub workspace_id : Option String
  pub declared_length : ℕ
  pub client_sha256_hint : Option String
  pub wire_encoding : String
  pub wire_declared_length : ℕ
  pub wire_sha256_hint : Option String
  pub file_kind : FileKind
  pub capture_profile : Option String
  pub verification_status : UploadStatus
  pub verified_wire_length : Option ℕ
  pub rejection_reason : Option String
  pub completed_at : Option ℕ
  pub expires_at : ℕ

-- The arguments of `create_upload_record` that it decides by.
pub record Declaration : Type 0 where
  pub workspace_id : Option String
  pub file_kind : FileKind
  pub size : ℕ
  pub sha256_hint : Option String
  pub capture_profile : Option String
  pub wire_encoding : String
  pub wire_size : Option ℕ
  pub wire_sha256 : Option String

-- The tables, and the ids of the workspaces that there are.
pub record Site : Type 0 where
  pub workspaces : List String
  pub uploads : List Upload
  pub tasks : Db

abbrev pub upload_key : Upload → String
upload_key u = u.id

unfoldable pub upload_at : Site → String → Option Upload
upload_at s id = Table.row_at upload_key id s.uploads

unfoldable pub save_upload : Upload → Site → Site
save_upload u s = record s { uploads = Table.save upload_key u s.uploads }

has_workspace : List String → String → Bool
has_workspace [] id = false
has_workspace (w ∷ ws) id = w == id || has_workspace ws id

abbrev same_text : Option String → Option String → Bool
same_text none none = true
same_text (some a) (some b) = a == b
same_text _ _ = false

-- `x is not None and not ok(x)` does not hold.
abbrev pub if_given : Option String → (String → Bool) → Bool
if_given none ok_ = true
if_given (some x) ok_ = ok_ x

abbrev pub wire_size_of : Declaration → ℕ
wire_size_of d = or_else d.wire_size d.size

abbrev pub wire_sha256_of : Declaration → Option String
wire_sha256_of d = elim d.wire_sha256 [ none ↦ d.sha256_hint | some s ↦ some s ]

-- The checks of `create_upload_record`, in order.
unfoldable pub check_declaration : List String → Declaration → Result UploadError (Unit {0})
unfolding has_workspace
check_declaration workspaces d = do
  require (if_given d.workspace_id (has_workspace workspaces)) not_found
  require (is_some d.workspace_id || not (is_dmp d.file_kind)) public_dmp_not_allowed
  require (not (same_text d.capture_profile (some "full-memory"))) unsupported_dump
  require (leb d.size (file_limit d.file_kind))
      (if is_dmp d.file_kind then dump_too_large else validation)
  require (d.wire_encoding == "identity" || d.wire_encoding == "zstd-v1") validation
  require (ltb 0 (wire_size_of d) && leb (wire_size_of d) (file_limit d.file_kind + mebibytes 1))
      validation
  require
      (not (d.wire_encoding == "identity")
        || (nat_eq (wire_size_of d) d.size
            && (not (is_some d.sha256_hint) || same_text (wire_sha256_of d) d.sha256_hint)))
      validation

abbrev lowered : (String → String) → Option String → Option String
lowered lower none = none
lowered lower (some s) = if s == "" then none else some (lower s)

-- `lower` is the method of texts, and `new_id` the id that is drawn.
unfoldable pub declared_upload : (String → String) → String → ℕ → Declaration → Upload
declared_upload lower new_id now d = record {
  id = new_id;
  workspace_id = d.workspace_id;
  declared_length = d.size;
  client_sha256_hint = lowered lower d.sha256_hint;
  wire_encoding = d.wire_encoding;
  wire_declared_length = wire_size_of d;
  wire_sha256_hint = lowered lower (wire_sha256_of d);
  file_kind = d.file_kind;
  capture_profile = d.capture_profile;
  verification_status = initialized;
  verified_wire_length = none;
  rejection_reason = none;
  completed_at = none;
  expires_at = now + seconds 86400;
}

recorded_upload : Result UploadError (Unit {0}) → Upload → Site → Result UploadError Upload × Site
recorded_upload (err e) u s = (err e, s)
recorded_upload (ok x) u s = (ok u, save_upload u s)

-- `create_upload_record`
unfoldable pub create_upload_record :
    (String → String) → String → ℕ → Declaration → Site → Result UploadError Upload × Site
unfolding recorded_upload
create_upload_record lower new_id now d s =
    recorded_upload (check_declaration s.workspaces d) (declared_upload lower new_id now d) s
