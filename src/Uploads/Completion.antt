-- ===== src/Uploads/Completion.antt =====
-- The completion of an upload: `transition_upload` of common.py and `complete_upload` of uploads.py.
pub mod Backed
use crash_cap.Base.{
  ℕ, String, Bool, true, false, not, ◌&&◌, Option, none, some, List, [], ◌∷◌, if◌then◌else◌, nat_eq,
  Result, ok, err, ◌>>=◌, ◌>>◌, require,
}
use crash_cap.Base.Keys.{◌==◌, text_keys}
use crash_cap.Tasks.Message.{Message, text, TaskError}
use crash_cap.Tasks.Rows.{Db, TaskIntent}
use crash_cap.Tasks.Intents.{stage_task_message}
use crash_cap.Uploads.{
  UploadStatus, uploaded, verifying, accepted, quarantined, rejected, upload_allowed, UploadError,
  not_found, validation, conflict, staging, Upload, Site, upload_at, save_upload,
}

-- `transition_upload`
unfoldable pub transition_upload : UploadStatus → Upload → Result UploadError Upload
unfolding upload_allowed
transition_upload target u = do
  require (upload_allowed u.verification_status target) conflict
  ok (record u { verification_status = target })

-- The states in which `complete_upload` only answers.
abbrev pub is_completed : UploadStatus → Bool
is_completed accepted = true
is_completed rejected = true
is_completed quarantined = true
is_completed verifying = true
is_completed _ = false

-- The arguments of `complete_upload`, with what the store answers to `head` after a multipart upload is
-- completed, the attempt that is drawn, the instant, and the intents that others commit while the task is staged.
pub record Completion : Type 0 where
  pub upload_id : String
  pub multipart : Bool
  pub has_parts : Bool
  pub head : Option ℕ
  pub attempt_id : String
  pub request_id : String
  pub now : ℕ
  pub race : List TaskIntent

abbrev pub verify_message : Completion → Upload → Message
verify_message c u =
    ("schema_version", text "1.0")
    ∷ ("task_type", text "verify_upload")
    ∷ ("upload_id", text u.id)
    ∷ ("attempt_id", text c.attempt_id)
    ∷ ("queue", text "verify")
    ∷ ("request_id", text c.request_id)
    ∷ []

-- UPLOADED and then VERIFYING
start_verifying : Upload → Result UploadError Upload
unfolding transition_upload
start_verifying u = do u' ← transition_upload uploaded u; transition_upload verifying u'

length_reason : Upload → String
length_reason u =
    if u.wire_encoding == "identity" then "length_mismatch" else "wire_length_mismatch"

-- The upload whose object has another length.
mismatched : ℕ → Upload → Result UploadError Upload
unfolding start_verifying length_reason
mismatched size u = do
  started ← start_verifying (record u { verified_wire_length = some size })
  ended ← transition_upload rejected started
  ok (record ended { rejection_reason = some (length_reason u) })

abbrev pub Completing : Type 0
Completing = Result UploadError Upload × Site

-- The rejection is committed, and the error raised after it.
reject_length : Result UploadError Upload → Site → Completing
reject_length (err e) s = (err e, s)
reject_length (ok u) s = (err validation, save_upload u s)

-- The commit after the task is staged. If staging raises, the call writes nothing, and `tasks` holds what others have
-- committed.
commit_staged : Result TaskError Message × Db → Upload → Site → Completing
commit_staged (err e, tasks) u s = (err (staging e), record s { tasks = tasks })
commit_staged (ok m, tasks) u s = (ok u, save_upload u (record s { tasks = tasks }))

stage_verification : Completion → Result UploadError Upload → Site → Completing
unfolding commit_staged
stage_verification c (err e) s = (err e, s)
stage_verification c (ok u) s =
    commit_staged (stage_task_message (verify_message c u) none c.race c.now s.tasks)
      (record u { completed_at = some c.now }) s

complete_present : Completion → Option ℕ → Upload → Site → Completing
unfolding reject_length mismatched stage_verification start_verifying
complete_present c none u s = (err conflict, s)
complete_present c (some size) u s =
    if nat_eq size u.wire_declared_length
    then stage_verification c (start_verifying u) s
    else reject_length (mismatched size u) s

complete_found : Completion → Option Upload → Site → Completing
unfolding complete_present
complete_found c none s = (err not_found, s)
complete_found c (some u) s =
    if is_completed u.verification_status
    then (ok u, s)
    else if c.multipart && not c.has_parts
    then (err validation, s)
    else complete_present c c.head u s

-- `complete_upload`: the upload that the response shows.
unfoldable pub complete_upload : Completion → Site → Completing
unfolding complete_found
complete_upload c s = complete_found c (upload_at s c.upload_id) s
