-- ===== src/Retention/Kept.antt =====
-- The bytes of a dump that is within its retention are never lost (retention.py, dump_content.py and
-- processor.py).
use text.Mathlib.TextEquality.{eq_iff}
use crash_cap.Base.{
  ℕ, ◌≤◌, String, ◌≡◌, refl, sym, ◌∙◌, ap, Bool, true, false, not, Bool-cases, inl, inr, Option,
  none, some, List, [], ◌∷◌, arith,
}
use crash_cap.Base.Keys.{◌==◌, text_keys}
use crash_cap.Base.Table.{row_at, key-row_at}
use crash_cap.Retention.{
  StoredBlob, StoredObject, Stores, blob_id, blob_at, object_at, save_blob, delete_object,
  live_blob, Visit, verify_dump, Deletion, gone, missing, broken, expirable, shares, any,
  mark_deleted, delete_raw, expire_found, expire_blob,
}
use crash_cap.Retention.Bytes.{
  Keeps, has_digest, has_bytes, blob_at-save_blob, object_at-delete_object, some_inj,
  verify_dump-Keeps,
}

not-true : {b : Bool} → (b ≡ true → b ≡ false) → b ≡ false
not-true {b} f = elim (Bool-cases b) [ inl e ↦ f e | inr e ↦ e ]

any-row_at :
    (p : StoredBlob → Bool) (rows : List StoredBlob) (id : String) {r : StoredBlob}
    → row_at blob_id id rows ≡ some r
    → p r ≡ true
    → any p rows ≡ true
unfolding row_at
any-row_at p [] id {r} at h = ground (arith, at)
any-row_at p (x ∷ xs) id {r} at h =
    ground (arith, at, h, eq_iff x.id id, any-row_at p xs id {r = r})

-- A row that is there shares the object of an expired one, if it is live and has its key.
sharing :
    (cutoff : ℕ) (b r : StoredBlob) (s : Stores) (id : String)
    → blob_at s id ≡ some r
    → (b.id == id) ≡ false
    → live_blob cutoff r ≡ true
    → (b.object_key == r.object_key) ≡ true
    → any (shares cutoff b) s.blobs ≡ true
unfolding blob_at
sharing cutoff b r s id at other live key = any-row_at (shares cutoff b) s.blobs id at (
    ground (
      arith,
      live,
      other,
      key,
      key-row_at blob_id id s.blobs at,
      eq_iff r.id b.id,
      eq_iff b.id id,
      eq_iff r.object_key b.object_key,
      eq_iff b.object_key r.object_key,
    ))

module _ (now cutoff : ℕ) (early : cutoff ≤ now) where
  -- Who is live now was live at the cutoff.
  live_blob-early : (r : StoredBlob) → live_blob now r ≡ true → live_blob cutoff r ≡ true
  live_blob-early r h = ground (arith, h, early)

  deleted_row-live :
      (b : StoredBlob) → live_blob now (record b { deleted_at = some cutoff }) ≡ false
  deleted_row-live b = refl

  mark_deleted-Keeps :
      (b : StoredBlob) (s t : Stores)
      → t.blobs ≡ s.blobs
      → ((id : String) (r : StoredBlob)
          → blob_at s id ≡ some r
          → (b.id == id) ≡ false
          → live_blob now r ≡ true
          → has_bytes t.objects r ≡ true)
      → Keeps now (mark_deleted cutoff b t)
  unfolding mark_deleted save_blob blob_at
  mark_deleted-Keeps b s t same k id r at live = elim (Bool-cases (b.id == id)) [
    | inl e ↦
        let own : record b { deleted_at = some cutoff } ≡ r =
          some_inj (
            sym (blob_at-save_blob (record b { deleted_at = some cutoff }) t id ∙ rw e refl)
            ∙ at) in
        absurd (ground (arith, live, own))
    | inr e ↦
        k id r
          (sym (blob_at-save_blob (record b { deleted_at = some cutoff }) t id ∙ rw (e, same) refl)
            ∙ at)
          e live
  ]

  delete_raw-Keeps :
      (d : Deletion) (b : StoredBlob) (s : Stores)
      → any (shares cutoff b) s.blobs ≡ false
      → Keeps now s
      → Keeps now (delete_raw d cutoff b s).1
  unfolding delete_raw
  delete_raw-Keeps gone b s alone k =
      mark_deleted-Keeps b s (record s { objects = delete_object b.object_key s.objects }) refl
        (λ id r at other live.
          kept_elsewhere r
            (not-true (λ key. absurd (
              ground
                (arith, alone, sharing cutoff b r s id at other (live_blob-early r live) key))))
            (k id r at live))
    where
      kept_elsewhere :
          (r : StoredBlob)
          → (b.object_key == r.object_key) ≡ false
          → has_bytes s.objects r ≡ true
          → has_bytes (delete_object b.object_key s.objects) r ≡ true
      kept_elsewhere r key h =
          ap (λ o. has_digest o r.sha256)
            (object_at-delete_object b.object_key r.object_key s.objects ∙ rw key refl)
          ∙ h
  delete_raw-Keeps missing b s alone k =
      mark_deleted-Keeps b s s refl (λ id r at other live. k id r at live)
  delete_raw-Keeps broken b s alone k = k

  expire_found-Keeps :
      (d : Deletion) (o : Option StoredBlob) (s : Stores)
      → Keeps now s
      → Keeps now (expire_found d cutoff o s).1
  unfolding expire_found
  expire_found-Keeps d none s k = k
  expire_found-Keeps d (some b) s k = elim (Bool-cases (not (expirable cutoff b))) [
    | inl e ↦ rw e k
    | inr e ↦ elim (Bool-cases (any (shares cutoff b) s.blobs)) [
      | inl f ↦ rw (e, f) (mark_deleted-Keeps b s s refl (λ id r at other live. k id r at live))
      | inr f ↦ rw (e, f) (delete_raw-Keeps d b s f k)
    ]
  ]

  -- An expiry at an instant up to now loses no bytes of a row that is live now.
  expire_blob-Keeps :
      (d : Deletion) (id : String) (s : Stores)
      → Keeps now s
      → Keeps now (expire_blob d cutoff id s).1
  unfolding expire_blob
  expire_blob-Keeps d id s k = expire_found-Keeps d (blob_at s id) s k

-- What happens to the dumps: somebody verifies one, or the retention handles one candidate.
pub data Step : Type 0 where
  verify : Visit → Step
  expire : (deletion : Deletion) (cutoff : ℕ) (id : String) → Step

unfoldable pub step : Step → Stores → Stores
step (verify v) s = verify_dump v s
step (expire d cutoff id) s = (expire_blob d cutoff id s).1

unfoldable pub steps : List Step → Stores → Stores
steps [] s = s
steps (x ∷ xs) s = steps xs (step x s)

-- No expiry goes by an instant that is still to come.
abbrev pub Past : ℕ → List Step → Type 0
Past now [] = Unit {0}
Past now (verify v ∷ rest) = Past now rest
Past now (expire d cutoff id ∷ rest) = (cutoff ≤ now) × Past now rest

steps-Keeps :
    (now : ℕ) (xs : List Step) (s : Stores) → Past now xs → Keeps now s → Keeps now (steps xs s)
unfolding steps step
steps-Keeps now [] s past k = k
steps-Keeps now (verify v ∷ rest) s past k =
    steps-Keeps now rest _ past (verify_dump-Keeps now v s k)
steps-Keeps now (expire d cutoff id ∷ rest) s past k =
    steps-Keeps now rest _ past.1 (expire_blob-Keeps now cutoff past.0 d id s k)

abbrev pub no_dumps : Stores
no_dumps = record { blobs = []; objects = [] }

no_dumps-Keeps : (now : ℕ) → Keeps now no_dumps
unfolding blob_at row_at
no_dumps-Keeps now id r at live = ground (arith, at)

bytes_found :
    (o : Option StoredObject) (sha : String)
    → has_digest o sha ≡ true
    → (x : StoredObject) × (o ≡ some x) × (x.digest ≡ sha)
bytes_found none sha h = ground (arith, h)
bytes_found (some x) sha h = (x, refl, (eq_iff x.digest sha).0 h)

-- Whatever dumps are verified and whatever candidates the retention handles, in any order and with any
-- answers of the store: a row that is not deleted and within its retention has its bytes in the store,
-- under its key and with its digest, if no expiry goes by a later instant.
pub steps-bytes :
    (now : ℕ) (xs : List Step) (id : String) (r : StoredBlob)
    → Past now xs
    → blob_at (steps xs no_dumps) id ≡ some r
    → live_blob now r ≡ true
    → (o : StoredObject) × (object_at (steps xs no_dumps).objects r.object_key ≡ some o)
      × (o.digest ≡ r.sha256)
steps-bytes now xs id r past at live =
    bytes_found (object_at (steps xs no_dumps).objects r.object_key) r.sha256
      (steps-Keeps now xs no_dumps past (no_dumps-Keeps now) id r at live)
