-- ===== src/Retention/Bytes.antt =====
-- Which bytes the store holds after retain_dump_content and the blob of _accept_dump.
use mathlib.Core.Path.{subst}
use text.Mathlib.TextEquality.{eq_iff}
use crash_cap.Base.{
  ℕ, String, ◌≡◌, refl, sym, ◌∙◌, Bool, true, false, ◌&&◌, ◌||◌, Bool-cases, inl, inr, Option, none,
  some, List, [], ◌∷◌, arith, if◌then◌else◌, first_where, Result, ok, err, is_some,
}
use crash_cap.Base.Keys.{◌==◌, text_keys}
use crash_cap.Base.Table
use crash_cap.Retention.{
  StoredBlob, StoredObject, Stores, blob_id, object_key, blob_at, object_at, save_blob, put_object,
  delete_object, content_key, ContentError, DumpFile, object_of, checked, retain_found,
  retain_dump_content, expired, live_blob, Arrival, new_blob, restored_blob, accept_found,
  accept_blob, Visit, accept_retained, verify_dump,
}

and_right : (a b : Bool) → (a && b) ≡ true → b ≡ true
and_right a b h = ground (arith, h)

pub some_inj : {b c : StoredBlob} → some b ≡ some c → b ≡ c
some_inj h = cc

pub blob_at-save_blob :
    (b : StoredBlob) (s : Stores) (id : String)
    → blob_at (save_blob b s) id ≡ (if b.id == id then some b else blob_at s id)
unfolding blob_at save_blob
blob_at-save_blob b s id = Table.row_at-save blob_id b id s.blobs

object_at-put_object :
    (o : StoredObject) (objects : List StoredObject) (key : String)
    → object_at (put_object o objects) key
      ≡ (if o.key == key then some o else object_at objects key)
unfolding object_at put_object
object_at-put_object o objects key = Table.row_at-save object_key o key objects

pub object_at-delete_object :
    (gone_key key : String) (objects : List StoredObject)
    → object_at (delete_object gone_key objects) key
      ≡ (if gone_key == key then none else object_at objects key)
unfolding object_at delete_object
object_at-delete_object gone_key key objects = Table.row_at-delete object_key gone_key key objects

abbrev pub has_digest : Option StoredObject → String → Bool
has_digest none sha = false
has_digest (some o) sha = o.digest == sha

-- The bytes of a row are in the store.
abbrev pub has_bytes : List StoredObject → StoredBlob → Bool
has_bytes objects b = has_digest (object_at objects b.object_key) b.sha256

abbrev pub Keeps : ℕ → Stores → Type 0
Keeps now s =
    (id : String) (r : StoredBlob)
    → blob_at s id ≡ some r
    → live_blob now r ≡ true
    → has_bytes s.objects r ≡ true

module _ (f : DumpFile) where
  checked-eq :
      (o : StoredObject) (key : String)
      → checked f o ≡ ok key
      → (key ≡ content_key f.sha256) × (o.digest ≡ f.sha256)
  unfolding checked
  checked-eq o key h = (ground (arith, h), ground (arith, h, eq_iff o.digest f.sha256))

  retain_found-digest :
      (o : Option StoredObject) (objects : List StoredObject) (key : String) (k : String)
      → object_at objects (content_key f.sha256) ≡ o
      → has_digest (object_at objects k) key ≡ true
      → has_digest (object_at (retain_found f o objects).1 k) key ≡ true
  unfolding retain_found
  retain_found-digest none objects key k at h =
      rw (object_at-put_object (object_of f) objects k)
        (ground (arith, at, h, eq_iff (content_key f.sha256) k))
  retain_found-digest (some o) objects key k at h = h

  -- What is retained is under the key of its content.
  retain_found-content :
      (o : Option StoredObject) (objects : List StoredObject) (key : String)
      → object_at objects (content_key f.sha256) ≡ o
      → (retain_found f o objects).0 ≡ ok key
      → has_digest (object_at (retain_found f o objects).1 key) f.sha256 ≡ true
  unfolding retain_found
  retain_found-content none objects key at h =
      rw
        (
          object_at-put_object (object_of f) objects key,
          (checked-eq (object_of f) key h).0,
          (eq_iff (content_key f.sha256) (content_key f.sha256)).1 refl,
        )
        ((eq_iff f.sha256 f.sha256).1 refl)
  retain_found-content (some o) objects key at h =
      rw ((checked-eq o key h).0, at) ((eq_iff o.digest f.sha256).1 (checked-eq o key h).1)

  retain_dump_content-digest :
      (objects : List StoredObject) (sha : String) (k : String)
      → has_digest (object_at objects k) sha ≡ true
      → has_digest (object_at (retain_dump_content f objects).1 k) sha ≡ true
  unfolding retain_dump_content
  retain_dump_content-digest objects sha k h =
      retain_found-digest (object_at objects (content_key f.sha256)) objects sha k refl h

  retain_dump_content-content :
      (objects : List StoredObject) (key : String)
      → (retain_dump_content f objects).0 ≡ ok key
      → has_digest (object_at (retain_dump_content f objects).1 key) f.sha256 ≡ true
  unfolding retain_dump_content
  retain_dump_content-content objects key h =
      retain_found-content (object_at objects (content_key f.sha256)) objects key refl h

first_where-holds :
    (p : StoredBlob → Bool) (rows : List StoredBlob) {b : StoredBlob}
    → first_where p rows ≡ some b
    → p b ≡ true
first_where-holds p [] {b} h = ground (arith, h)
first_where-holds p (x ∷ xs) {b} h = elim (Bool-cases (p x)) [
  | inl e ↦
      subst (λ y. p y ≡ true)
        (some_inj (subst (λ c. (elim c [ true ↦ some x | false ↦ first_where p xs ]) ≡ some b) e h))
        e
  | inr e ↦
      first_where-holds p xs
        (subst (λ c. (elim c [ true ↦ some x | false ↦ first_where p xs ]) ≡ some b) e h)
]

module _ (now : ℕ) where
  save_blob-Keeps :
      (b : StoredBlob) (s : Stores)
      → (live_blob now b ≡ true → has_bytes s.objects b ≡ true)
      → Keeps now s
      → Keeps now (save_blob b s)
  unfolding save_blob
  save_blob-Keeps b s own k id r at live = elim (Bool-cases (b.id == id)) [
    | inl e ↦
        let same : b ≡ r = some_inj (sym (blob_at-save_blob b s id ∙ rw e refl) ∙ at) in
        subst (λ x. has_bytes s.objects x ≡ true) same
          (own (subst (λ x. live_blob now x ≡ true) (sym same) live))
    | inr e ↦ k id r (sym (blob_at-save_blob b s id ∙ rw e refl) ∙ at) live
  ]

  either_Keeps :
      (c : Bool) (s t : Stores) → Keeps now s → Keeps now t → Keeps now (if c then s else t)
  either_Keeps true s t k l = k
  either_Keeps false s t k l = l

  accept_blob-Keeps :
      (a : Arrival) (sha key : String) (at : ℕ) (s : Stores)
      → has_digest (object_at s.objects key) sha ≡ true
      → Keeps now s
      → Keeps now (accept_blob a sha key at s)
  unfolding accept_blob
  accept_blob-Keeps a sha key at s h k =
      found-Keeps (first_where (λ b. b.workspace_id == a.workspace_id && b.sha256 == sha) s.blobs)
        refl
    where
      sha_of :
          (b : StoredBlob)
          → (b.workspace_id == a.workspace_id && b.sha256 == sha) ≡ true
          → b.sha256 ≡ sha
      sha_of b e =
          (eq_iff b.sha256 sha).0 (and_right (b.workspace_id == a.workspace_id) (b.sha256 == sha) e)

      restored-bytes :
          (b : StoredBlob)
          → (b.workspace_id == a.workspace_id && b.sha256 == sha) ≡ true
          → has_bytes s.objects (restored_blob a key b) ≡ true
      restored-bytes b e =
          subst (λ d. has_digest (object_at s.objects key) d ≡ true) (sym (sha_of b e)) h

      found-Keeps :
          (o : Option StoredBlob)
          → first_where (λ b. b.workspace_id == a.workspace_id && b.sha256 == sha) s.blobs ≡ o
          → Keeps now (accept_found a sha key at o s)
      found-Keeps none e = save_blob-Keeps (new_blob a sha key) s (λ _. h) k
      found-Keeps (some b) e =
          either_Keeps (is_some b.deleted_at || expired at b) (save_blob (restored_blob a key b) s)
            s
            (save_blob-Keeps (restored_blob a key b) s
              (λ _. restored-bytes b (first_where-holds _ s.blobs e)) k)
            k

  retained-Keeps :
      (v : Visit) (s : Stores) (r : Result ContentError String)
      → ((key : String) → r ≡ ok key → has_digest (object_at s.objects key) v.file.sha256 ≡ true)
      → Keeps now s
      → Keeps now (accept_retained v r s)
  unfolding accept_retained
  retained-Keeps v s (err e) h k = k
  retained-Keeps v s (ok key) h k =
      either_Keeps v.proceeds (accept_blob v.arrival v.file.sha256 key v.now s) s
        (accept_blob-Keeps v.arrival v.file.sha256 key v.now s (h key refl) k) k

  pub verify_dump-Keeps : (v : Visit) (s : Stores) → Keeps now s → Keeps now (verify_dump v s)
  unfolding verify_dump
  verify_dump-Keeps v s k =
      retained-Keeps v (record s { objects = (retain_dump_content v.file s.objects).1 })
        (retain_dump_content v.file s.objects).0
        (λ key h. retain_dump_content-content v.file s.objects key h)
        (λ id r at live.
          retain_dump_content-digest v.file s.objects r.sha256 r.object_key
            (k id r (unfold blob_at in at) live))
