-- ===== src/Retention/Tests.antt =====
-- Two workspaces that share one dump, and instances of the theorems about retention.py.
use crash_cap.Base.{
  ℕ, ◌+◌, ◌≡◌, refl, String, ◌≤◌, length, true, false, none, some, List, [], ◌∷◌, arith,
}
use crash_cap.Base.Sorting.{sort_by, sort_onto, insert_sorted}
use crash_cap.Base.Table.{row_at, save, delete}
use crash_cap.Retention.{
  StoredBlob, StoredObject, blob_at, object_at, DumpFile, Visit, gone, save_blob, put_object,
  delete_object, verify_dump, retain_dump_content, accept_blob, expire_blob, days, object_of,
  Stores, expirable, expire_each, expiry_candidates, expire_dump_blobs, Deletion,
}
use crash_cap.Retention.Clears.{expire_dump_blobs-clears}
use crash_cap.Retention.Kept.{Step, verify, expire, step, steps, no_dumps, steps-bytes}

abbrev dump : DumpFile
dump = record { sha256 = "ab"; size = 7 }

abbrev visit : String → String → ℕ → ℕ → Visit
visit id workspace now retention = record {
  file = dump;
  arrival = record {
    new_id = id;
    workspace_id = workspace;
    uploaded_at = now;
    retention_days = retention;
  };
  now = now;
  proceeds = true;
}

-- The first workspace keeps its dumps for one day, and the second, which has the same dump, for three.
abbrev history : List Step
history =
    verify (visit "blob_1" "wsp_1" 0 1)
    ∷ verify (visit "blob_2" "wsp_2" 5 3)
    ∷ expire gone (days 2) "blob_1"
    ∷ expire gone (days 2) "blob_2"
    ∷ []

abbrev kept_row : StoredBlob
kept_row = record {
  id = "blob_2";
  workspace_id = "wsp_2";
  sha256 = "ab";
  object_key = "dump-blobs/ab/original.dmp";
  expires_at = some (5 + days 3);
  deleted_at = none;
}

kept_row_found : blob_at (steps history no_dumps) "blob_2" ≡ some kept_row
unfolding steps step verify_dump retain_dump_content object_at accept_blob save_blob put_object
    expire_blob blob_at row_at save delete delete_object object_of
kept_row_found = refl

steps-bytes_example :
    (o : StoredObject) × (object_at (steps history no_dumps).objects "dump-blobs/ab/original.dmp"
      ≡ some o)
    × (o.digest ≡ "ab")
steps-bytes_example =
    steps-bytes (days 2) history "blob_2" kept_row (omega arith) kept_row_found refl

-- Once the second one has expired too, the bytes are deleted.
bytes_deleted :
    object_at
      (steps (expire gone (days 4) "blob_2" ∷ []) (steps history no_dumps)).objects
      "dump-blobs/ab/original.dmp"
    ≡ none
unfolding steps step verify_dump retain_dump_content object_at accept_blob save_blob put_object
    expire_blob blob_at row_at save delete delete_object object_of
bytes_deleted = refl

abbrev both_kept : Stores
both_kept =
    steps (verify (visit "blob_1" "wsp_1" 0 1) ∷ verify (visit "blob_2" "wsp_2" 5 3) ∷ []) no_dumps

abbrev always_gone : String → Deletion
always_gone id = gone

few_rows : length both_kept.blobs ≤ 10
unfolding steps step verify_dump retain_dump_content object_at accept_blob save_blob put_object
    blob_at row_at save object_of
few_rows = omega arith

row_after_run :
    blob_at (expire_dump_blobs (λ i s. s) always_gone (days 2) 10 both_kept).1 "blob_2"
    ≡ some kept_row
unfolding steps step verify_dump retain_dump_content object_at accept_blob save_blob put_object
    expire_blob blob_at row_at save delete delete_object object_of expire_dump_blobs expire_each
    expiry_candidates sort_by sort_onto insert_sorted
row_after_run = refl

expire_dump_blobs-clears_example : expirable (days 2) kept_row ≡ false
expire_dump_blobs-clears_example =
    expire_dump_blobs-clears always_gone (days 2) 10 both_kept "blob_2" kept_row (λ i. refl)
      few_rows row_after_run
