-- ===== src/Base/Paging.antt =====
-- Pages of an ascending list: each begins behind the last of the one before.
use crash_cap.Base.Sorting.{str_lt, insert_id, sorted_set}
use crash_cap.Base.Ascending.{
  str_lt_trans, str_lt_irrefl, Follows, Follows-trans, Ascending, sorted_set-Ascending,
}
use Prim.Native.Nat.{ℕ, zero, suc, ◌≤◌, ◌<◌}
use Prim.Native.String.{String}
use mathlib.Core.Path.{◌≡◌, refl, ap}
use mathlib.Core.Bool.{Bool, true, false}
use mathlib.Core.Option.{Option, none, some}
use mathlib.Core.List.{List, [], ◌∷◌, ◌++◌}
use mathlib.Core.Logic.{inl, inr}
use native.Mathlib.Omega.{arith}
use text.Mathlib.TextEquality.{eq_iff}
use crash_cap.Base.Keys.{◌==◌, text_keys}
use crash_cap.Base.Tests.{if◌then◌else◌, Bool-cases}
use crash_cap.Base.Lists.{keep_if, take, length, All-keep_if}

-- `rows[i]`
abbrev pub id_at : ℕ → List String → Option String
id_at i [] = none
id_at zero (x ∷ xs) = some x
id_at (suc i) (x ∷ xs) = id_at i xs

insert_id-head : (i : String) (xs : List String) → Follows i xs → insert_id i xs ≡ i ∷ xs
unfolding insert_id
insert_id-head i [] h = refl
insert_id-head i (x ∷ xs) h =
    let apart : (i == x) ≡ false = ground (arith, h.0, str_lt_irrefl i, eq_iff i x) in
    rw (apart, h.0) refl

kept_follow :
    (i : String) (p : String → Bool) (xs : List String) → Follows i xs → Follows i (keep_if p xs)
kept_follow i p xs h =
    All-keep_if (λ x. str_lt i x ≡ true) (λ x. str_lt i x ≡ true) p (λ a k e. k) xs h

-- An id before all that is left is put first.
kept_head :
    (p : String → Bool) (i x : String) (xs : List String)
    → Ascending (x ∷ xs)
    → str_lt i x ≡ true
    → insert_id i (keep_if p (x ∷ xs)) ≡ i ∷ keep_if p (x ∷ xs)
kept_head p i x xs h f =
    insert_id-head i (keep_if p (x ∷ xs)) (kept_follow i p (x ∷ xs) (f, Follows-trans i x xs f h.0))

keep_if-insert_id :
    (p : String → Bool) (i : String) (xs : List String)
    → Ascending xs
    → keep_if p (insert_id i xs) ≡ (if p i then insert_id i (keep_if p xs) else keep_if p xs)
unfolding insert_id
keep_if-insert_id p i [] h = ground arith
keep_if-insert_id p i (x ∷ xs) h = elim (Bool-cases (i == x)) [
  | inl e ↦ let same : p i ≡ p x = ap p (ground (arith, e, eq_iff i x)) in ground (arith, e, same)
  | inr e ↦ elim (Bool-cases (str_lt i x)) [
    | inl f ↦ ground (arith, e, f, kept_head p i x xs h f)
    | inr f ↦ ground (arith, e, f, keep_if-insert_id p i xs h.1)
  ]
]

pub sorted_set-keep_if :
    (p : String → Bool) (xs : List String) → sorted_set (keep_if p xs) ≡ keep_if p (sorted_set xs)
unfolding sorted_set
sorted_set-keep_if p [] = refl
sorted_set-keep_if p (x ∷ xs) = ground (
  arith,
  keep_if-insert_id p x (sorted_set xs) (sorted_set-Ascending xs),
  sorted_set-keep_if p xs,
)

id_at-Follows :
    (a : String) (i : ℕ) (xs : List String) (x : String)
    → Follows a xs
    → id_at i xs ≡ some x
    → str_lt a x ≡ true
id_at-Follows a i [] x h e = absurd (ground (arith, e))
id_at-Follows a zero (y ∷ ys) x h e = ground (arith, h.0, e)
id_at-Follows a (suc i) (y ∷ ys) x h e = id_at-Follows a i ys x h.1 e

kept_all : (a : String) (xs : List String) → Follows a xs → keep_if (str_lt a) xs ≡ xs
kept_all a [] h = refl
kept_all a (x ∷ xs) h = ground (arith, h.0, kept_all a xs h.1)

-- What does not come behind itself, or before what comes before it.
not_behind : (a b : String) → str_lt a b ≡ true → str_lt b a ≡ false
not_behind a b h = elim (Bool-cases (str_lt b a)) [
  | inl e ↦ absurd (ground (arith, str_lt_trans a b a h e, str_lt_irrefl a))
  | inr e ↦ e
]

-- An ascending list is a page and what comes behind the last of the page.
pub take_behind :
    (i : ℕ) (xs : List String) (a : String)
    → Ascending xs
    → id_at i xs ≡ some a
    → xs ≡ take (suc i) xs ++ keep_if (str_lt a) xs
take_behind i [] a h e = absurd (ground (arith, e))
take_behind zero (x ∷ xs) a h e =
    let same : x ≡ a = ground (arith, e) in ground (arith, same, str_lt_irrefl x, kept_all x xs h.0)
take_behind (suc i) (x ∷ xs) a h e =
    ground (arith, not_behind x a (id_at-Follows x i xs a h.0 e), take_behind i xs a h.1 e)

pub take_all : (n : ℕ) (xs : List String) → length xs ≤ n → take n xs ≡ xs
take_all zero [] h = refl
take_all zero (x ∷ xs) h = absurd (omega (arith, h))
take_all (suc n) [] h = refl
take_all (suc n) (x ∷ xs) h = ap (λ ys. x ∷ ys) (take_all n xs (omega (arith, h)))

pub id_at-some : (i : ℕ) (xs : List String) → i < length xs → (a : String) × (id_at i xs ≡ some a)
id_at-some i [] h = absurd (omega (arith, h))
id_at-some zero (x ∷ xs) h = (x, refl)
id_at-some (suc i) (x ∷ xs) h = id_at-some i xs (omega (arith, h))
