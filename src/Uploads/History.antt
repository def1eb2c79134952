-- ===== src/Uploads/History.antt =====
-- Any calls on uploads: declarations, completions, and the ends of verifications (uploads.py).
use crash_cap.Base.{
  ℕ, String, ◌≡◌, refl, Bool, true, false, Option, none, some, is_some, List, [], ◌∷◌, arith,
  if◌then◌else◌, Result, ok, err,
}
use crash_cap.Base.Table.{row_at}
use crash_cap.Tasks.Rows.{Db, TaskIntent, logical_intent}
use crash_cap.Uploads.{
  UploadStatus, Upload, UploadError, Declaration, Site, upload_at, save_upload,
  create_upload_record,
}
use crash_cap.Uploads.Completion.{Completion, complete_upload, transition_upload}
use crash_cap.Uploads.Completion.Backed.{
  Backed, is_verifying, task_of, save_upload-Backed, create_upload_record-Backed,
  complete_upload-Backed,
}

pub data UploadCall : Type 0 where
  declare : (new_id : String) (now : ℕ) → Declaration → UploadCall
  complete : Completion → UploadCall
  end_verification : (id : String) (target : UploadStatus) → UploadCall

moved : Result UploadError Upload → Site → Site
moved (err e) s = s
moved (ok u) s = save_upload u s

-- verify_upload, where it moves a VERIFYING upload on.
ended : UploadStatus → Option Upload → Site → Site
ended target none s = s
ended target (some u) s =
    if is_verifying u.verification_status then moved (transition_upload target u) s else s

unfoldable pub upload_call : (String → String) → UploadCall → Site → Site
unfolding ended moved
upload_call lower (declare new_id now d) s = (create_upload_record lower new_id now d s).1
upload_call lower (complete c) s = (complete_upload c s).1
upload_call lower (end_verification id target) s = ended target (upload_at s id) s

unfoldable pub upload_calls : (String → String) → List UploadCall → Site → Site
upload_calls lower [] s = s
upload_calls lower (c ∷ cs) s = upload_calls lower cs (upload_call lower c s)

-- A move away from VERIFYING ends elsewhere.
moves_away :
    (target : UploadStatus) (u : Upload) {v : Upload}
    → is_verifying u.verification_status ≡ true
    → transition_upload target u ≡ ok v
    → is_verifying v.verification_status ≡ false
unfolding transition_upload
moves_away target u {v} is h = ground (arith, is, h)

ended-Backed :
    (target : UploadStatus) (o : Option Upload) (s : Site) → Backed s → Backed (ended target o s)
unfolding ended moved save_upload
ended-Backed target none s b = b
ended-Backed target (some u) s b = away (is_verifying u.verification_status) refl
  where
    moved_away :
        (r : Result UploadError Upload)
        → ((v : Upload) → r ≡ ok v → is_verifying v.verification_status ≡ false)
        → Backed (moved r s)
    moved_away (err e) f = b
    moved_away (ok v) f = save_upload-Backed v s (λ h. absurd (ground (arith, h, f v refl))) b

    away :
        (t : Bool)
        → is_verifying u.verification_status ≡ t
        → Backed (if t then moved (transition_upload target u) s else s)
    away true e = moved_away (transition_upload target u) (λ v h. moves_away target u e h)
    away false e = b

upload_calls-Backed :
    (lower : String → String) (cs : List UploadCall) (s : Site)
    → Backed s
    → Backed (upload_calls lower cs s)
unfolding upload_calls upload_call
upload_calls-Backed lower [] s b = b
upload_calls-Backed lower (declare new_id now d ∷ cs) s b =
    upload_calls-Backed lower cs _ (create_upload_record-Backed lower new_id now d s b)
upload_calls-Backed lower (complete c ∷ cs) s b =
    upload_calls-Backed lower cs _ (complete_upload-Backed c s b)
upload_calls-Backed lower (end_verification id target ∷ cs) s b =
    upload_calls-Backed lower cs _ (ended-Backed target (upload_at s id) s b)

abbrev pub no_uploads : List String → Db → Site
no_uploads workspaces tasks = record { workspaces = workspaces; uploads = []; tasks = tasks }

no_uploads-Backed : (workspaces : List String) (tasks : Db) → Backed (no_uploads workspaces tasks)
unfolding upload_at row_at
no_uploads-Backed workspaces tasks id u at is = ground (arith, at)

intent_of : (o : Option TaskIntent) → is_some o ≡ true → (i : TaskIntent) × (o ≡ some i)
intent_of none h = ground (arith, h)
intent_of (some i) h = (i, refl)

-- From a table without uploads, and whatever tasks there are, every upload that is VERIFYING after any
-- calls has an intent of the task that verifies it, whatever other transactions commit while it is staged.
pub upload_calls-intent :
    (lower : String → String) (workspaces : List String) (tasks : Db) (cs : List UploadCall)
    (id : String) (u : Upload)
    → upload_at (upload_calls lower cs (no_uploads workspaces tasks)) id ≡ some u
    → is_verifying u.verification_status ≡ true
    → (i : TaskIntent) × (logical_intent
          (upload_calls lower cs (no_uploads workspaces tasks)).tasks
          (task_of id)
        ≡ some i)
upload_calls-intent lower workspaces tasks cs id u at is =
    intent_of
      (logical_intent (upload_calls lower cs (no_uploads workspaces tasks)).tasks (task_of id))
      (upload_calls-Backed lower cs (no_uploads workspaces tasks)
        (no_uploads-Backed workspaces tasks) id u at is)
