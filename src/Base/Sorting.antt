-- ===== src/Base/Sorting.antt =====
-- A stable sort, for `ORDER BY` and `sorted`.
use Prim.Native.String.{String, compare}
use Prim.Native.Nat.{Ordering, suc, ◌+◌}
use mathlib.Core.Bool.{Bool, true, false}
use mathlib.Core.List.{List, [], ◌∷◌}
use mathlib.Core.Logic.{inl, inr}
use mathlib.Core.Path.{◌≡◌, refl}
use native.Mathlib.Omega.{arith}
use crash_cap.Base.Tests.{if◌then◌else◌, Bool-cases}
use crash_cap.Base.Keys.{◌==◌, text_keys}
use crash_cap.Base.Lists.{All, length}

-- Order of texts by code point.
abbrev pub str_lt : String → String → Bool
str_lt a b = elim (compare a b) [ Ordering.lt ↦ true | _ ↦ false ]

unfoldable pub insert_id : String → List String → List String
insert_id i [] = i ∷ []
insert_id i (j ∷ js) =
    let rest = insert_id i js in
    if i == j then j ∷ js else if str_lt i j then i ∷ j ∷ js else j ∷ rest

-- `sorted(set(ids))`
unfoldable pub sorted_set : List String → List String
unfolding insert_id
sorted_set [] = []
sorted_set (i ∷ is) = insert_id i (sorted_set is)

module _ {ℓ} {A : Type ℓ} (before : A → A → Bool) where
  -- `x` goes behind what is not after it.
  unfoldable pub insert_sorted : A → List A → List A
  insert_sorted x [] = x ∷ []
  insert_sorted x (y ∷ ys) = if before x y then x ∷ y ∷ ys else y ∷ insert_sorted x ys

  unfoldable pub sort_onto : List A → List A → List A
  unfolding insert_sorted
  sort_onto sorted [] = sorted
  sort_onto sorted (x ∷ xs) = sort_onto (insert_sorted x sorted) xs

  unfoldable pub sort_by : List A → List A
  unfolding sort_onto
  sort_by xs = sort_onto [] xs

  module _ {κ} (P : A → Type κ) where
    insert_sorted-All : (x : A) (ys : List A) → P x → All P ys → All P (insert_sorted x ys)
    unfolding insert_sorted
    insert_sorted-All x [] h t = (h, tt)
    insert_sorted-All x (y ∷ ys) h t = elim (Bool-cases (before x y)) [
      | inl e ↦ rw e (h, t)
      | inr e ↦ rw e (t.0, insert_sorted-All x ys h t.1)
    ]

    sort_onto-All : (sorted xs : List A) → All P sorted → All P xs → All P (sort_onto sorted xs)
    unfolding sort_onto
    sort_onto-All sorted [] hs hx = hs
    sort_onto-All sorted (x ∷ xs) hs hx =
        sort_onto-All (insert_sorted x sorted) xs (insert_sorted-All x sorted hx.0 hs) hx.1

    pub sort_by-All : (xs : List A) → All P xs → All P (sort_by xs)
    unfolding sort_by
    sort_by-All xs h = sort_onto-All [] xs tt h

    -- The other way round: what holds of the sorted list holds of the list.
    insert_sorted-All_of : (x : A) (ys : List A) → All P (insert_sorted x ys) → P x × All P ys
    unfolding insert_sorted
    insert_sorted-All_of x [] h = h
    insert_sorted-All_of x (y ∷ ys) h = in_front (before x y) (insert_sorted-All_of x ys) h
      where
        in_front :
            (b : Bool)
            → (All P (insert_sorted x ys) → P x × All P ys)
            → All P (if b then x ∷ y ∷ ys else y ∷ insert_sorted x ys)
            → P x × (P y × All P ys)
        in_front true rest t = t
        in_front false rest t = let r = rest t.1 in (r.0, (t.0, r.1))

    sort_onto-All_of : (sorted xs : List A) → All P (sort_onto sorted xs) → All P sorted × All P xs
    unfolding sort_onto
    sort_onto-All_of sorted [] h = (h, tt)
    sort_onto-All_of sorted (x ∷ xs) h =
        let rest = sort_onto-All_of (insert_sorted x sorted) xs h in
        let own = insert_sorted-All_of x sorted rest.0 in (own.1, (own.0, rest.1))

    pub sort_by-All_of : (xs : List A) → All P (sort_by xs) → All P xs
    unfolding sort_by
    sort_by-All_of xs h = (sort_onto-All_of [] xs h).1

  length-insert_sorted : (x : A) (ys : List A) → length (insert_sorted x ys) ≡ suc (length ys)
  unfolding insert_sorted
  length-insert_sorted x [] = refl
  length-insert_sorted x (y ∷ ys) = ground (arith, length-insert_sorted x ys)

  length-sort_onto : (sorted xs : List A) → length (sort_onto sorted xs) ≡ length sorted + length xs
  unfolding sort_onto
  length-sort_onto sorted [] = omega arith
  length-sort_onto sorted (x ∷ xs) =
      omega (arith, length-sort_onto (insert_sorted x sorted) xs, length-insert_sorted x sorted)

  pub length-sort_by : (xs : List A) → length (sort_by xs) ≡ length xs
  unfolding sort_by
  length-sort_by xs = omega (arith, length-sort_onto [] xs)
