-- ===== src/Retention/Clears.antt =====
-- A run of expire_dump_blobs of retention.py leaves no dump that has expired.
use text.Mathlib.TextEquality.{eq_iff}
use mathlib.Core.Path.{subst}
use crash_cap.Base.{
  ℕ, ◌≤◌, String, ◌≡◌, refl, ◌∙◌, ap, Bool, true, false, not, Bool-cases, Option-cases, inl, inr,
  Option, none, some, List, [], ◌∷◌, All, arith, if◌then◌else◌, keep_if, length, length-keep_if-le,
}
use crash_cap.Base.Sources.{take-All_of, keep_if-All_of, map-All_of}
use crash_cap.Base.Keys.{◌==◌, text_keys}
use crash_cap.Base.Sorting.{sort_by, sort_by-All_of, length-sort_by}
use crash_cap.Base.Table.{row_at, key-row_at}
use crash_cap.Retention.{
  StoredBlob, Stores, blob_id, blob_at, Deletion, gone, missing, broken, expirable, shares, any,
  mark_deleted, delete_raw, expire_found, expire_blob, expire_each, expiry_candidates, ends_first,
  expire_dump_blobs,
}
use crash_cap.Retention.Bytes.{blob_at-save_blob}

abbrev pub not_broken : Deletion → Bool
not_broken broken = false
not_broken _ = true

abbrev is_done : ℕ → Option StoredBlob → Bool
is_done cutoff none = true
is_done cutoff (some b) = not (expirable cutoff b)

module _ (cutoff : ℕ) where
  abbrev Done : Stores → String → Type 0
  Done s id = is_done cutoff (blob_at s id) ≡ true

  deleted_row :
      (b : StoredBlob) → is_done cutoff (some (record b { deleted_at = some cutoff })) ≡ true
  deleted_row b = ground arith

  marked :
      (b : StoredBlob) (s : Stores) (id : String)
      → (b.id == id) ≡ true
      → blob_at (mark_deleted cutoff b s) id ≡ some (record b { deleted_at = some cutoff })
  unfolding mark_deleted
  marked b s id e = blob_at-save_blob (record b { deleted_at = some cutoff }) s id ∙ rw e refl

  unmarked :
      (b : StoredBlob) (s : Stores) (id : String)
      → (b.id == id) ≡ false
      → blob_at (mark_deleted cutoff b s) id ≡ blob_at s id
  unfolding mark_deleted
  unmarked b s id e = blob_at-save_blob (record b { deleted_at = some cutoff }) s id ∙ rw e refl

  mark_deleted-Done :
      (b : StoredBlob) (s : Stores) (id : String) → Done s id → Done (mark_deleted cutoff b s) id
  mark_deleted-Done b s id h = elim (Bool-cases (b.id == id)) [
    | inl e ↦ ap (is_done cutoff) (marked b s id e) ∙ deleted_row b
    | inr e ↦ ap (is_done cutoff) (unmarked b s id e) ∙ h
  ]

  mark_deleted-own :
      (b : StoredBlob) (s : Stores) (id : String) → b.id ≡ id → Done (mark_deleted cutoff b s) id
  mark_deleted-own b s id e =
      ap (is_done cutoff) (marked b s id ((eq_iff b.id id).1 e)) ∙ deleted_row b

  -- A transaction undoes no deletion.
  delete_raw-Done :
      (d : Deletion) (b : StoredBlob) (s : Stores) (id : String)
      → Done s id
      → Done (delete_raw d cutoff b s).1 id
  unfolding delete_raw blob_at
  delete_raw-Done gone b s id h = mark_deleted-Done b _ id h
  delete_raw-Done missing b s id h = mark_deleted-Done b s id h
  delete_raw-Done broken b s id h = h

  either_Done :
      (t : Bool) (x y : Bool × Stores) (id : String)
      → Done x.1 id
      → Done y.1 id
      → Done (if t then x else y).1 id
  either_Done true x y id h k = h
  either_Done false x y id h k = k

  expire_found-Done :
      (d : Deletion) (o : Option StoredBlob) (s : Stores) (id : String)
      → Done s id
      → Done (expire_found d cutoff o s).1 id
  unfolding expire_found
  expire_found-Done d none s id h = h
  expire_found-Done d (some b) s id h =
      either_Done (not (expirable cutoff b)) (false, s) _ id h
        (either_Done (any (shares cutoff b) s.blobs) (true, mark_deleted cutoff b s) _ id
          (mark_deleted-Done b s id h) (delete_raw-Done d b s id h))

  delete_raw-own :
      (d : Deletion) (b : StoredBlob) (s : Stores) (id : String)
      → not_broken d ≡ true
      → b.id ≡ id
      → Done (delete_raw d cutoff b s).1 id
  unfolding delete_raw
  delete_raw-own gone b s id ans e = mark_deleted-own b _ id e
  delete_raw-own missing b s id ans e = mark_deleted-own b s id e
  delete_raw-own broken b s id ans e = absurd (ground (arith, ans))

  -- The transaction for a candidate ends with the row deleted, or no longer expired.
  expire_found-own :
      (d : Deletion) (o : Option StoredBlob) (s : Stores) (id : String)
      → not_broken d ≡ true
      → blob_at s id ≡ o
      → Done (expire_found d cutoff o s).1 id
  unfolding expire_found
  expire_found-own d none s id ans at = ap (is_done cutoff) at
  expire_found-own d (some b) s id ans at = elim (Bool-cases (not (expirable cutoff b))) [
    | inl e ↦ rw e (ap (is_done cutoff) at ∙ e)
    | inr e ↦ rw e (
        either_Done (any (shares cutoff b) s.blobs) (true, mark_deleted cutoff b s) _ id
          (mark_deleted-own b s id own) (delete_raw-own d b s id ans own))
  ]
    where
      own : b.id ≡ id
      own = key-row_at blob_id id s.blobs {a = b} (unfold blob_at in at)

  expire_blob-Done :
      (d : Deletion) (i : String) (s : Stores) (id : String)
      → Done s id
      → Done (expire_blob d cutoff i s).1 id
  unfolding expire_blob
  expire_blob-Done d i s id h = expire_found-Done d (blob_at s i) s id h

  expire_blob-own :
      (d : Deletion) (s : Stores) (id : String)
      → not_broken d ≡ true
      → Done (expire_blob d cutoff id s).1 id
  unfolding expire_blob
  expire_blob-own d s id ans = expire_found-own d (blob_at s id) s id ans refl

  module _ (deletion : String → Deletion) where
    -- The run when nobody else writes.
    abbrev alone : List String → Stores → Stores
    alone ids s = (expire_each (λ _ s. s) deletion cutoff ids s).1

    alone-Done : (ids : List String) (s : Stores) (id : String) → Done s id → Done (alone ids s) id
    unfolding expire_each
    alone-Done [] s id h = h
    alone-Done (i ∷ ids) s id h = alone-Done ids _ id (expire_blob-Done (deletion i) i s id h)

    alone-own :
        (ids : List String) (s : Stores)
        → ((i : String) → not_broken (deletion i) ≡ true)
        → All (λ id. Done (alone ids s) id) ids
    unfolding expire_each
    alone-own [] s ans = tt
    alone-own (i ∷ ids) s ans =
        (alone-Done ids _ i (expire_blob-own (deletion i) s i (ans i)), alone-own ids _ ans)

All-row_at {ℓ} :
    (P : StoredBlob → Type ℓ) (id : String) (xs : List StoredBlob) {b : StoredBlob}
    → All P xs
    → row_at blob_id id xs ≡ some b
    → P b
unfolding row_at
All-row_at P id [] {b} h at = absurd (ground (arith, at))
All-row_at P id (x ∷ xs) {b} h at = in_front (x.id == id) (All-row_at P id xs {b = b} h.1) at
  where
    in_front :
        (t : Bool)
        → (row_at blob_id id xs ≡ some b → P b)
        → (if t then some x else row_at blob_id id xs) ≡ some b
        → P b
    in_front true rest e = subst P (ground (arith, e)) h.0
    in_front false rest e = rest e

All-blob_at {ℓ} :
    (P : StoredBlob → Type ℓ) (s : Stores) (id : String) (b : StoredBlob)
    → All P s.blobs
    → blob_at s id ≡ some b
    → P b
All-blob_at P s id b h at = All-row_at P id s.blobs {b = b} h (unfold blob_at in at)

module _ (deletion : String → Deletion) (cutoff limit : ℕ) (s : Stores) where
  end : Stores
  end = alone cutoff deletion (expiry_candidates cutoff limit s) s

  candidates-Done :
      ((i : String) → not_broken (deletion i) ≡ true)
      → length s.blobs ≤ limit
      → All (λ b. expirable cutoff b ≡ true → Done cutoff end b.id) s.blobs
  unfolding expiry_candidates end
  candidates-Done ans le = keep_if-All_of Ends (expirable cutoff) s.blobs (
      sort_by-All_of ends_first Ends found (
        take-All_of Ends limit (sort_by ends_first found)
          (omega (
            arith,
            le,
            length-sort_by ends_first found,
            length-keep_if-le (expirable cutoff) s.blobs,
          ))
          (map-All_of (λ i. Done cutoff end i) blob_id _
            (alone-own cutoff deletion (expiry_candidates cutoff limit s) s ans))))
    where
      found : List StoredBlob
      found = keep_if (expirable cutoff) s.blobs

      Ends : StoredBlob → Type 0
      Ends b = Done cutoff end b.id

  end-Done :
      ((i : String) → not_broken (deletion i) ≡ true)
      → length s.blobs ≤ limit
      → (id : String) → Done cutoff end id
  unfolding end
  end-Done ans le id = elim (Option-cases (blob_at s id)) [
    | inl h ↦ kept (ap (is_done cutoff) h)
    | inr (b, h) ↦ elim (Bool-cases (expirable cutoff b)) [
      | inl e ↦
          subst (Done cutoff end) (key-row_at blob_id id s.blobs {a = b} (unfold blob_at in h)) (
            All-blob_at (λ b. expirable cutoff b ≡ true → Done cutoff end b.id) s id b
              (candidates-Done ans le) h e)
      | inr e ↦ kept (ap (is_done cutoff) h ∙ rw e refl)
    ]
  ]
    where
      kept :
          Done cutoff s id
          → Done cutoff (alone cutoff deletion (expiry_candidates cutoff limit s) s) id
      kept = alone-Done cutoff deletion (expiry_candidates cutoff limit s) s id

-- When the limit is at least the number of rows, the store answers every deletion, and nobody else writes
-- between the transactions, a run of expire_dump_blobs leaves no row that has expired at its
-- cutoff and is not deleted: every row found afterwards, under any id, is one that the query passes over.
pub expire_dump_blobs-clears :
    (deletion : String → Deletion) (cutoff limit : ℕ) (s : Stores) (id : String) (b : StoredBlob)
    → ((i : String) → not_broken (deletion i) ≡ true)
    → length s.blobs ≤ limit
    → blob_at (expire_dump_blobs (λ i s. s) deletion cutoff limit s).1 id ≡ some b
    → expirable cutoff b ≡ false
unfolding expire_dump_blobs end
expire_dump_blobs-clears deletion cutoff limit s id b ans le at =
    ground (arith, ap (is_done cutoff) at, end-Done deletion cutoff limit s ans le id)
