-- ===== src/Uploads/Tests.antt =====
-- An upload from its declaration to its verification, and instances of the theorems about uploads.py.
use crash_cap.Base.{◌≡◌, refl, false, none, some, List, [], ◌∷◌, err}
use crash_cap.Base.Table.{row_at, save}
use crash_cap.Tasks.Message.{validate_task_message, task_identity, field, get}
use crash_cap.Tasks.Rows.{Db, TaskIntent, logical_intent, save_intent}
use crash_cap.Tasks.Intents.{stage_task_message, check_message}
use crash_cap.Uploads.{
  Upload, validation, dmp, verifying, rejected, Declaration, Site, upload_at, save_upload,
  check_declaration, declared_upload, create_upload_record,
}
use crash_cap.Uploads.Completion.{Completion, complete_upload, transition_upload}
use crash_cap.Uploads.Completion.Backed.{task_of}
use crash_cap.Uploads.Sizes.{Declared, create_upload_record-Declared}
use crash_cap.Uploads.History.{
  UploadCall, declare, complete, upload_call, upload_calls, no_uploads, upload_calls-intent,
}

abbrev declaration : Declaration
declaration = record {
  workspace_id = some "wsp_1";
  file_kind = dmp;
  size = 7;
  sha256_hint = none;
  capture_profile = none;
  wire_encoding = "identity";
  wire_size = none;
  wire_sha256 = none;
}

abbrev completion : Completion
completion = record {
  upload_id = "upl_1";
  multipart = false;
  has_parts = false;
  head = some 7;
  attempt_id = "att_1";
  request_id = "";
  now = 9;
  race = [];
}

abbrev no_tasks : Db
no_tasks = record { intents = []; executions = [] }

abbrev start : Site
start = no_uploads ("wsp_1" ∷ []) no_tasks

abbrev uploads_calls : List UploadCall
uploads_calls = declare "upl_1" 3 declaration ∷ complete completion ∷ []

abbrev verified : Upload
verified = record (declared_upload (λ s. s) "upl_1" 3 declaration) {
  verification_status = verifying;
  completed_at = some 9;
}

declared_then_completed :
    upload_at (upload_calls (λ s. s) uploads_calls start) "upl_1" ≡ some verified
unfolding upload_calls upload_call create_upload_record check_declaration complete_upload upload_at
    row_at save_upload save stage_task_message check_message validate_task_message task_identity
    field get logical_intent save_intent transition_upload declared_upload
declared_then_completed = refl

upload_calls-intent_example :
    (i : TaskIntent) × (logical_intent
        (upload_calls (λ s. s) uploads_calls start).tasks
        (task_of "upl_1")
      ≡ some i)
upload_calls-intent_example =
    upload_calls-intent (λ s. s) ("wsp_1" ∷ []) no_tasks uploads_calls "upl_1" verified
      declared_then_completed (unfold declared_upload in refl)

create_upload_record-Declared_example :
    Declared start "upl_1" (create_upload_record (λ s. s) "upl_1" 3 declaration start)
create_upload_record-Declared_example =
    create_upload_record-Declared (λ s. s) "upl_1" 3 declaration start

-- An object of another length: the rejection is committed and the call raises.
short_object :
    complete_upload
      (record completion { head = some 6 })
      (create_upload_record (λ s. s) "upl_1" 3 declaration start).1
    ≡ (
      err validation,
      save_upload
          (record (declared_upload (λ s. s) "upl_1" 3 declaration) {
            verification_status = rejected;
            verified_wire_length = some 6;
            rejection_reason = some "length_mismatch";
          })
          (create_upload_record (λ s. s) "upl_1" 3 declaration start).1,
    )
unfolding create_upload_record check_declaration complete_upload upload_at row_at save_upload save
    transition_upload declared_upload
short_object = refl
