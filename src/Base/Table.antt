-- ===== src/Base/Table.antt =====
-- A database table: its rows in the order of insertion, reached by a key.
use mathlib.Core.Path.{◌≡◌, refl}
use mathlib.Core.Option.{Option, none, some}
use mathlib.Core.List.{List, [], ◌∷◌}
use native.Mathlib.Omega.{arith}
use crash_cap.Base.Tests.{if◌then◌else◌}
use crash_cap.Base.Keys.{Comparable, ◌==◌}

module _ {ℓ κ} {A : Type ℓ} {K : Type κ} ⦃e : Comparable K⦄ (key : A → K) where
  -- `session.get(Model, key)`
  unfoldable pub row_at : K → List A → Option A
  row_at k [] = none
  row_at k (x ∷ xs) = let rest = row_at k xs in if key x == k then some x else rest

  -- The flush of a row: an existing row is updated, a new one is added.
  unfoldable pub save : A → List A → List A
  save a [] = a ∷ []
  save a (x ∷ xs) = if key x == key a then a ∷ xs else x ∷ save a xs

  unfoldable pub delete : K → List A → List A
  delete k [] = []
  delete k (x ∷ xs) = let rest = delete k xs in if key x == k then rest else x ∷ rest

  pub row_at-save :
      (a : A) (k : K) (xs : List A)
      → row_at k (save a xs) ≡ (if key a == k then some a else row_at k xs)
  unfolding row_at save
  row_at-save a k [] = refl
  row_at-save a k (x ∷ xs) = ground (
    arith,
    row_at-save a k xs,
    e.same_iff (key x) (key a),
    e.same_iff (key x) k,
    e.same_iff (key a) k,
  )

  -- A row that was saved is found.
  pub row_at-save_self : (a : A) (k : K) (xs : List A) → key a ≡ k → row_at k (save a xs) ≡ some a
  row_at-save_self a k xs h = ground (arith, row_at-save a k xs, e.same_iff (key a) k)

  pub row_at-delete :
      (j k : K) (xs : List A) → row_at k (delete j xs) ≡ (if j == k then none else row_at k xs)
  unfolding row_at delete
  row_at-delete j k [] = ground arith
  row_at-delete j k (x ∷ xs) =
      ground
        (arith, row_at-delete j k xs, e.same_iff (key x) j, e.same_iff (key x) k, e.same_iff j k)

  -- What a look-up finds carries the key that was asked for.
  pub key-row_at : (k : K) (xs : List A) {a : A} → row_at k xs ≡ some a → key a ≡ k
  unfolding row_at
  key-row_at k [] {a} h = ground arith
  key-row_at k (x ∷ xs) {a} h = ground (arith, key-row_at k xs {a = a}, e.same_iff (key x) k)

-- A row that is new under the key it is saved by is found under any other key that was free.
module _ {ℓ} {A : Type ℓ} {K : Type ℓ} {L : Type ℓ} ⦃e : Comparable K⦄ ⦃f : Comparable L⦄
    (key : A → K) (other : A → L) where
  pub row_at-save_new :
      (a : A) (xs : List A)
      → row_at key (key a) xs ≡ none
      → row_at other (other a) xs ≡ none
      → row_at other (other a) (save key a xs) ≡ some a
  unfolding row_at save
  row_at-save_new a [] h n = ground (arith, f.same_iff (other a) (other a))
  row_at-save_new a (x ∷ xs) h n = ground (
    arith,
    row_at-save_new a xs,
    e.same_iff (key x) (key a),
    f.same_iff (other x) (other a),
    f.same_iff (other a) (other a),
  )
