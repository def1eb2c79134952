-- ===== src/Retention.antt =====
-- Crash dumps and their bytes: platform/api/crashcap_api/services/dump_content.py, the rows of dump_blobs
-- that _accept_dump of platform/worker/crashcap_worker/processor.py writes, and expire_dump_blobs of
-- platform/worker/crashcap_worker/retention.py.
pub mod Bytes
pub mod Kept
pub mod Runs
pub mod Clears
mod Tests
use crash_cap.Base.{
  ℕ, zero, suc, ◌+◌, ◌*◌, String, Bool, true, false, not, ◌&&◌, ◌||◌, Option, none, some, List, [],
  ◌∷◌, if◌then◌else◌, seconds, leb, is_some, after, take, keep_if, map, first_where, nat_eq, Result,
  ok, err, ◌>>=◌, ◌>>◌, require, ◌<>◌,
}
use crash_cap.Base.Keys.{◌==◌, text_keys}
use crash_cap.Base.Sorting.{sort_by}
use crash_cap.Base.Table

-- A row of dump_blobs: the columns that these operations read and write.
pub record StoredBlob : Type 0 where
  pub id : String
  pub workspace_id : String
  pub sha256 : String
  pub object_key : String
  pub expires_at : Option ℕ
  pub deleted_at : Option ℕ

-- An object of the store: its bytes by their digest and their number.
pub record StoredObject : Type 0 where
  pub key : String
  pub digest : String
  pub length : ℕ

pub record Stores : Type 0 where
  pub blobs : List StoredBlob
  pub objects : List StoredObject

abbrev pub blob_id : StoredBlob → String
blob_id b = b.id

abbrev pub object_key : StoredObject → String
object_key o = o.key

unfoldable pub blob_at : Stores → String → Option StoredBlob
blob_at s id = Table.row_at blob_id id s.blobs

unfoldable pub object_at : List StoredObject → String → Option StoredObject
object_at objects key = Table.row_at object_key key objects

unfoldable pub save_blob : StoredBlob → Stores → Stores
save_blob b s = record s { blobs = Table.save blob_id b s.blobs }

unfoldable pub put_object : StoredObject → List StoredObject → List StoredObject
put_object o objects = Table.save object_key o objects

unfoldable pub delete_object : String → List StoredObject → List StoredObject
delete_object key objects = Table.delete object_key key objects

-- `f"dump-blobs/{sha256}/original.dmp"`
abbrev pub content_key : String → String
content_key sha = "dump-blobs/" <> sha <> "/original.dmp"

pub data ContentError : Type 0 where
  differs : ContentError  -- RuntimeError: the retained content differs

-- A dump that was downloaded, with the digest that was verified for its bytes.
pub record DumpFile : Type 0 where
  pub sha256 : String
  pub size : ℕ

unfoldable pub object_of : DumpFile → StoredObject
object_of f = record { key = content_key f.sha256; digest = f.sha256; length = f.size }

-- The check of what is under the key, which is there or was put there.
checked : DumpFile → StoredObject → Result ContentError String
checked f o = do
  require (o.digest == f.sha256 && nat_eq o.length f.size) differs
  ok (content_key f.sha256)

retain_found :
    DumpFile
    → Option StoredObject
    → List StoredObject
    → Result ContentError String × List StoredObject
unfolding checked object_of
retain_found f none objects = (checked f (object_of f), put_object (object_of f) objects)
retain_found f (some o) objects = (checked f o, objects)

-- `retain_dump_content`
unfoldable pub retain_dump_content :
    DumpFile → List StoredObject → Result ContentError String × List StoredObject
unfolding retain_found
retain_dump_content f objects = retain_found f (object_at objects (content_key f.sha256)) objects

-- `expires_at is not None and expires_at <= now`
abbrev pub expired : ℕ → StoredBlob → Bool
expired now b = is_some b.expires_at && not (after b.expires_at now)

-- Not deleted, and within its retention.
abbrev pub live_blob : ℕ → StoredBlob → Bool
live_blob now b = not (is_some b.deleted_at) && not (expired now b)

-- What _accept_dump knows of the upload and its workspace.
pub record Arrival : Type 0 where
  pub new_id : String
  pub workspace_id : String
  pub uploaded_at : ℕ
  pub retention_days : ℕ

abbrev pub days : ℕ → ℕ
days n = seconds (n * 86400)

retention_end : Arrival → Option ℕ
retention_end a = some (a.uploaded_at + days a.retention_days)

new_blob : Arrival → String → String → StoredBlob
unfolding retention_end
new_blob a sha key = record {
  id = a.new_id;
  workspace_id = a.workspace_id;
  sha256 = sha;
  object_key = key;
  expires_at = retention_end a;
  deleted_at = none;
}

restored_blob : Arrival → String → StoredBlob → StoredBlob
unfolding retention_end
restored_blob a key b = record b {
  object_key = key;
  deleted_at = none;
  expires_at = retention_end a;
}

accept_found : Arrival → String → String → ℕ → Option StoredBlob → Stores → Stores
unfolding new_blob restored_blob
accept_found a sha key now none s = save_blob (new_blob a sha key) s
accept_found a sha key now (some b) s =
    if is_some b.deleted_at || expired now b then save_blob (restored_blob a key b) s else s

-- The blob of _accept_dump.
unfoldable pub accept_blob : Arrival → String → String → ℕ → Stores → Stores
unfolding accept_found
accept_blob a sha key now s =
    accept_found a sha key now
      (first_where (λ b. b.workspace_id == a.workspace_id && b.sha256 == sha) s.blobs) s

-- What verify_upload does with a dump: the bytes are retained first, and only a claim that is current
-- and an upload that is still VERIFYING have the blob accepted.
pub record Visit : Type 0 where
  pub file : DumpFile
  pub arrival : Arrival
  pub now : ℕ
  pub proceeds : Bool

accept_retained : Visit → Result ContentError String → Stores → Stores
accept_retained v (err e) s = s
accept_retained v (ok key) s =
    if v.proceeds then accept_blob v.arrival v.file.sha256 key v.now s else s

unfoldable pub verify_dump : Visit → Stores → Stores
unfolding accept_retained
verify_dump v s =
    let (r, objects) = retain_dump_content v.file s.objects in
    accept_retained v r (record s { objects = objects })

-- What `store.delete` does: it removes the object, raises ObjectNotFoundError, or raises something else.
pub data Deletion : Type 0 where
  gone missing broken : Deletion

-- The condition of both queries on a row of dump_blobs that has expired.
abbrev pub expirable : ℕ → StoredBlob → Bool
expirable cutoff b = expired cutoff b && not (is_some b.deleted_at)

-- Another row that needs the same object.
abbrev pub shares : ℕ → StoredBlob → StoredBlob → Bool
shares cutoff b other =
    not (other.id == b.id) && other.object_key == b.object_key && live_blob cutoff other

abbrev pub any {ℓ} : {A : Type ℓ} → (A → Bool) → List A → Bool
any p [] = false
any p (x ∷ xs) = p x || any p xs

mark_deleted : ℕ → StoredBlob → Stores → Stores
mark_deleted cutoff b s = save_blob (record b { deleted_at = some cutoff }) s

-- The deletion of bytes that no live row shares, and whether the row counts as expired.
delete_raw : Deletion → ℕ → StoredBlob → Stores → Bool × Stores
unfolding mark_deleted
delete_raw gone cutoff b s =
    (true, mark_deleted cutoff b (record s { objects = delete_object b.object_key s.objects }))
delete_raw missing cutoff b s = (true, mark_deleted cutoff b s)
delete_raw broken cutoff b s = (false, s)

expire_found : Deletion → ℕ → Option StoredBlob → Stores → Bool × Stores
unfolding delete_raw
expire_found d cutoff none s = (false, s)
expire_found d cutoff (some b) s =
    if not (expirable cutoff b)
    then (false, s)
    else if any (shares cutoff b) s.blobs
    then (true, mark_deleted cutoff b s)
    else delete_raw d cutoff b s

-- The transaction for one candidate.
unfoldable pub expire_blob : Deletion → ℕ → String → Stores → Bool × Stores
unfolding expire_found
expire_blob d cutoff id s = expire_found d cutoff (blob_at s id) s

abbrev ends_first : StoredBlob → StoredBlob → Bool
ends_first a b = elim a.expires_at [ none ↦ false | some x ↦ after b.expires_at x ]

-- The first query.
unfoldable pub expiry_candidates : ℕ → ℕ → Stores → List String
expiry_candidates cutoff limit s =
    map blob_id (take limit (sort_by ends_first (keep_if (expirable cutoff) s.blobs)))

-- The loop, with what others do before each transaction and what the store answers in it.
unfoldable pub expire_each :
    (String → Stores → Stores) → (String → Deletion) → ℕ → List String → Stores → ℕ × Stores
expire_each meanwhile deletion cutoff [] s = (0, s)
expire_each meanwhile deletion cutoff (id ∷ ids) s =
    let (done, s') = expire_blob (deletion id) cutoff id (meanwhile id s) in
    let (count, end) = expire_each meanwhile deletion cutoff ids s' in
    (if done then count + 1 else count, end)

-- `expire_dump_blobs`
unfoldable pub expire_dump_blobs :
    (String → Stores → Stores) → (String → Deletion) → ℕ → ℕ → Stores → ℕ × Stores
unfolding expire_each expiry_candidates
expire_dump_blobs meanwhile deletion cutoff limit s =
    expire_each meanwhile deletion cutoff (expiry_candidates cutoff limit s) s
