-- ===== src/Uploads/Sizes.antt =====
-- The bounds that `create_upload_record` of uploads.py puts on an upload.
use crash_cap.Base.{
  ℕ, ◌+◌, ◌≤◌, ◌<◌, String, ◌≡◌, ◌⊎◌, inl, inr, Bool-cases, refl, true, false, is_some, some, List,
  arith, Result, ok, err,
}
use crash_cap.Base.Keys.{◌==◌, text_keys}
use crash_cap.Base.Table.{row_at-save_self}
use crash_cap.Uploads.{
  Upload, Declaration, UploadError, Site, file_limit, mebibytes, is_dmp, check_declaration,
  declared_upload, recorded_upload, create_upload_record, upload_at, save_upload, upload_key,
}

-- What holds of the sizes of an upload.
pub record IsBounded (u : Upload) : Type 0 where
  pub within_limit : u.declared_length ≤ file_limit u.file_kind
  pub wire_positive : 0 < u.wire_declared_length
  pub wire_within : u.wire_declared_length ≤ file_limit u.file_kind + mebibytes 1
  pub identity_same :
      ((u.wire_encoding == "identity") ≡ false) ⊎ (u.wire_declared_length ≡ u.declared_length)
  pub private_dump : (is_dmp u.file_kind ≡ false) ⊎ (is_some u.workspace_id ≡ true)

check_declaration-IsBounded :
    (lower : String → String) (new_id : String) (now : ℕ) (workspaces : List String)
    (d : Declaration)
    → check_declaration workspaces d ≡ ok tt
    → IsBounded (declared_upload lower new_id now d)
unfolding check_declaration declared_upload
check_declaration-IsBounded lower new_id now workspaces d h = record {
  within_limit = ground (arith, h);
  wire_positive = ground (arith, h);
  wire_within = ground (arith, h);
  identity_same = elim (Bool-cases (d.wire_encoding == "identity")) [
    | inl e ↦ inr (ground (arith, h, e))
    | inr e ↦ inl e
  ];
  private_dump = elim (Bool-cases (is_dmp d.file_kind)) [
    | inl e ↦ inr (ground (arith, h, e))
    | inr e ↦ inl e
  ];
}

upload_at-saved : (u : Upload) (s : Site) → upload_at (save_upload u s) u.id ≡ some u
unfolding upload_at save_upload
upload_at-saved u s = row_at-save_self upload_key u u.id s.uploads refl

-- What a declaration leads to: an upload within its bounds that is found under its id, or an error
-- and no write.
pub data Declared (s : Site) (id : String) : Result UploadError Upload × Site → Type 0 where
  taken :
      (u : Upload) (t : Site)
      → IsBounded u
      → u.id ≡ id
      → upload_at t id ≡ some u
      → Declared s id (ok u, t)
  refused : (e : UploadError) → Declared s id (err e, s)

-- `create_upload_record` writes nothing and raises, or writes an upload under the new id. Such an upload is
-- not larger than its kind may be, its wire size is positive and exceeds that limit by at most one
-- mebibyte, it equals the size unless the encoding is another one than identity, and a dump has a workspace.
pub create_upload_record-Declared :
    (lower : String → String) (new_id : String) (now : ℕ) (d : Declaration) (s : Site)
    → Declared s new_id (create_upload_record lower new_id now d s)
unfolding create_upload_record declared_upload
create_upload_record-Declared lower new_id now d s = cases (check_declaration s.workspaces d) refl
  where
    cases :
        (r : Result UploadError (Unit {0}))
        → check_declaration s.workspaces d ≡ r
        → Declared s new_id (recorded_upload r (declared_upload lower new_id now d) s)
    cases (err e) h = refused e
    cases (ok x) h =
        taken (declared_upload lower new_id now d)
          (save_upload (declared_upload lower new_id now d) s)
          (check_declaration-IsBounded lower new_id now s.workspaces d h) refl
          (upload_at-saved (declared_upload lower new_id now d) s)
