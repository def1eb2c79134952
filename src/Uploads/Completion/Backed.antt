-- ===== src/Uploads/Completion/Backed.antt =====
-- Every upload that is being verified has a task for it (uploads.py over task_handoff.py).
use mathlib.Core.Path.{subst}
use package.text.Mathlib.TextEquality.{eq_iff}
use crash_cap.Base.{
  ℕ, String, ◌≡◌, refl, sym, ◌∙◌, ap, Bool, true, false, not, ◌&&◌, Bool-cases, inl, inr, Option,
  none, some, arith, if◌then◌else◌, nat_eq, Result, ok, err, ◌>>◌,
}
use crash_cap.Base.Keys.{◌==◌, text_keys}
use crash_cap.Base.Table
use crash_cap.Tasks.Message.{
  Message, TaskError, TaskIdentity, get, field, task_identity, validate_task_message,
}
use crash_cap.Tasks.Rows.{Db}
use crash_cap.Tasks.Intents.{Checked, check_message, stage_task_message}
use crash_cap.Tasks.Intents.Stays.{
  has_intent, stage_task_message-stays, stage_task_message-checked, stage_task_message-has,
}
use crash_cap.Uploads.{
  UploadStatus, verifying, validation, Upload, Declaration, UploadError, Site, upload_key,
  upload_at, save_upload, check_declaration, declared_upload, recorded_upload, create_upload_record,
}
use crash_cap.Uploads.Completion.{
  is_completed, Completion, verify_message, start_verifying, mismatched, reject_length,
  commit_staged, stage_verification, complete_present, complete_found, complete_upload, Completing,
}

abbrev pub is_verifying : UploadStatus → Bool
is_verifying verifying = true
is_verifying _ = false

-- The key of the task of an upload.
abbrev pub task_of : String → String × String
task_of id = ("verify_upload", id)

abbrev pub Backed : Site → Type 0
Backed s =
    (id : String) (u : Upload)
    → upload_at s id ≡ some u
    → is_verifying u.verification_status ≡ true
    → has_intent s.tasks (task_of id) ≡ true

first_part :
    (r : Result TaskError (Unit {0})) (x y : Checked)
    → ◌≡◌ {A = Result TaskError Checked} (r >> ok x) (ok y)
    → x ≡ y
first_part (ok u) x y h = ap (λ r. elim r [ ok z ↦ z | err e ↦ x ]) h
first_part (err e) x y h = absurd (ground (arith, h))

abbrev upload_identity : Upload → TaskIdentity
upload_identity u = record {
  task_type = "verify_upload";
  queue = "verify";
  logical_key = u.id;
  target_type = "upload";
  target_id = u.id;
}

-- What is staged for an upload is the task with its id.
checked_identity :
    (c : Completion) (u : Upload) (identity : TaskIdentity) (attempt version : String)
    → check_message (verify_message c u) none ≡ ok (identity, attempt, version)
    → (identity.task_type, identity.logical_key) ≡ task_of u.id
unfolding check_message task_identity field get
checked_identity c u identity attempt version h =
    let own : Checked = (upload_identity u, c.attempt_id, "1.0") in
    ap (λ (x : Checked). (x.0.task_type, x.0.logical_key))
      (sym (
        first_part (validate_task_message (verify_message c u)) own (identity, attempt, version) h))

-- A stage that returns leaves the task of the upload.
staged-has :
    (c : Completion) (u : Upload) (tasks : Db) {m : Message}
    → (stage_task_message (verify_message c u) none c.race c.now tasks).0 ≡ ok m
    → has_intent (stage_task_message (verify_message c u) none c.race c.now tasks).1 (task_of u.id)
      ≡ true
staged-has c u tasks h =
    let (x, e) = stage_task_message-checked (verify_message c u) c.race c.now tasks h in
    subst
      (λ k. has_intent (stage_task_message (verify_message c u) none c.race c.now tasks).1 k ≡ true)
      (checked_identity c u x.0 x.1 x.2 e)
      (stage_task_message-has (verify_message c u) c.race c.now tasks x.0 x.1 x.2 e h)

upload_at-save_upload :
    (u : Upload) (s : Site) (id : String)
    → upload_at (save_upload u s) id ≡ (if u.id == id then some u else upload_at s id)
unfolding upload_at save_upload
upload_at-save_upload u s id = Table.row_at-save upload_key u id s.uploads

some_inj : {u v : Upload} → some u ≡ some v → u ≡ v
some_inj h = cc

pub save_upload-Backed :
    (u : Upload) (s : Site)
    → (is_verifying u.verification_status ≡ true → has_intent s.tasks (task_of u.id) ≡ true)
    → Backed s
    → Backed (save_upload u s)
unfolding save_upload
save_upload-Backed u s own b id v at is = elim (Bool-cases (u.id == id)) [
  | inl e ↦
      let same : u ≡ v = some_inj (sym (upload_at-save_upload u s id ∙ rw e refl) ∙ at) in
      subst (λ k. has_intent s.tasks (task_of k) ≡ true) ((eq_iff u.id id).0 e)
        (own (subst (λ x. is_verifying x.verification_status ≡ true) (sym same) is))
  | inr e ↦ b id v (sym (upload_at-save_upload u s id ∙ rw e refl) ∙ at) is
]

either_Backed :
    (t : Bool) (x y : Completing) → Backed x.1 → Backed y.1 → Backed (if t then x else y).1
either_Backed true x y b d = b
either_Backed false x y b d = d

pub create_upload_record-Backed :
    (lower : String → String) (new_id : String) (now : ℕ) (d : Declaration) (s : Site)
    → Backed s
    → Backed (create_upload_record lower new_id now d s).1
unfolding create_upload_record
create_upload_record-Backed lower new_id now d s b = created (check_declaration s.workspaces d)
  where
    created :
        (r : Result UploadError (Unit {0}))
        → Backed (recorded_upload r (declared_upload lower new_id now d) s).1
    created (err e) = b
    created (ok x) =
        save_upload-Backed (declared_upload lower new_id now d) s
          (λ h. unfold declared_upload in ground (arith, h)) b

commit_staged-Backed :
    (u : Upload) (s : Site) (p : Result TaskError Message × Db)
    → ((m : Message) → p.0 ≡ ok m → has_intent p.1 (task_of u.id) ≡ true)
    → ((key : String × String) → has_intent s.tasks key ≡ true → has_intent p.1 key ≡ true)
    → Backed s
    → Backed (commit_staged p u s).1
unfolding commit_staged upload_at
commit_staged-Backed u s (err e, tasks) own stays b =
    λ id v at is. stays (task_of id) (b id v at is)
commit_staged-Backed u s (ok m, tasks) own stays b =
    save_upload-Backed u (record s { tasks = tasks }) (λ _. own m refl)
      (λ id v at is. stays (task_of id) (b id v at is))

stage_verification-Backed :
    (c : Completion) (r : Result UploadError Upload) (s : Site)
    → Backed s
    → Backed (stage_verification c r s).1
unfolding stage_verification
stage_verification-Backed c (err e) s b = b
stage_verification-Backed c (ok u) s b =
    commit_staged-Backed (record u { completed_at = some c.now }) s
      (stage_task_message (verify_message c u) none c.race c.now s.tasks)
      (λ m h. staged-has c u s.tasks h)
      (λ key h. stage_task_message-stays key (verify_message c u) c.race c.now s.tasks h) b

-- An upload of the wrong length does not stay VERIFYING.
mismatched-status :
    (size : ℕ) (u : Upload) {v : Upload}
    → mismatched size u ≡ ok v
    → is_verifying v.verification_status ≡ false
unfolding mismatched
mismatched-status size u {v} h = ground (arith, h)

reject_length-Backed :
    (r : Result UploadError Upload) (s : Site)
    → ((v : Upload) → r ≡ ok v → is_verifying v.verification_status ≡ false)
    → Backed s
    → Backed (reject_length r s).1
unfolding reject_length
reject_length-Backed (err e) s f b = b
reject_length-Backed (ok u) s f b =
    save_upload-Backed u s (λ h. absurd (ground (arith, h, f u refl))) b

complete_found-Backed :
    (c : Completion) (o : Option Upload) (s : Site) → Backed s → Backed (complete_found c o s).1
unfolding complete_found
complete_found-Backed c none s b = b
complete_found-Backed c (some u) s b =
    either_Backed (is_completed u.verification_status) (ok u, s) _ b
      (either_Backed (c.multipart && not c.has_parts) (err validation, s) _ b
        (present_Backed c.head))
  where
    present_Backed : (head : Option ℕ) → Backed (complete_present c head u s).1
    present_Backed none = b
    present_Backed (some size) =
        either_Backed (nat_eq size u.wire_declared_length)
          (stage_verification c (start_verifying u) s) (reject_length (mismatched size u) s)
          (stage_verification-Backed c (start_verifying u) s b)
          (reject_length-Backed (mismatched size u) s (λ v h. mismatched-status size u h) b)

pub complete_upload-Backed : (c : Completion) (s : Site) → Backed s → Backed (complete_upload c s).1
unfolding complete_upload
complete_upload-Backed c s b = complete_found-Backed c (upload_at s c.upload_id) s b
