-- ===== src/Base/Ascending.antt =====
-- Ascending lists of texts, as `SELECT DISTINCT ... ORDER BY` gives them, and their pages.
use Prim.Native.Char.{Char, code}
use Prim.Native.String.{String, [] as no_chars, ◌∷◌ as cons_char, compare, then}
use Prim.Native.String.compare
use Prim.Native.Nat.{ℕ, ◌<◌, Ordering, compare as compare_nat}
use mathlib.Core.Path.{◌≡◌, refl, sym, ap, ◌∙◌}
use mathlib.Core.Bool.{Bool, true, false}
use mathlib.Core.List.{List, [], ◌∷◌}
use mathlib.Core.Logic.{inl, inr}
use native.Mathlib.Omega.{arith, compare-eq}
use text.Mathlib.Text.{is_eq}
use text.Mathlib.TextPositions.{compare_self}
use text.Mathlib.TextEquality.{eq_iff}
use crash_cap.Base.Keys.{◌==◌, text_keys}
use crash_cap.Base.Tests.{Bool-cases}
use crash_cap.Base.Lists.{All}
use crash_cap.Base.Sorting.{str_lt, insert_id, sorted_set}

abbrev is_lt : Ordering → Bool
is_lt Ordering.lt = true
is_lt _ = false

-- How three numbers compare, when the first two pairs are ordered.
nat_compare :
    (a b c : ℕ) (o p : Ordering)
    → compare_nat a b ≡ o
    → compare_nat b c ≡ p
    → compare_nat a c ≡ (elim o [
      | Ordering.lt ↦ elim p [ Ordering.gt ↦ compare_nat a c | _ ↦ Ordering.lt ]
      | Ordering.eq ↦ p
      | Ordering.gt ↦ compare_nat a c
    ])
nat_compare a b c Ordering.lt Ordering.lt h k = ground (arith, h, k)
nat_compare a b c Ordering.lt Ordering.eq h k = ground (arith, h, k)
nat_compare a b c Ordering.lt Ordering.gt h k = refl
nat_compare a b c Ordering.eq p h k = ap (λ x. compare_nat x c) (compare-eq a b h) ∙ k
nat_compare a b c Ordering.gt p h k = refl

then_trans :
    (o p q : Ordering) (r s t : Ordering)
    → is_lt ((then) o r) ≡ true
    → is_lt ((then) p s) ≡ true
    → q ≡ (elim o [
      | Ordering.lt ↦ elim p [ Ordering.gt ↦ q | _ ↦ Ordering.lt ]
      | Ordering.eq ↦ p
      | Ordering.gt ↦ q
    ])
    → (is_lt r ≡ true → is_lt s ≡ true → is_lt t ≡ true)
    → is_lt ((then) q t) ≡ true
then_trans Ordering.lt Ordering.lt q r s t h k e f = rw e refl
then_trans Ordering.lt Ordering.eq q r s t h k e f = rw e refl
then_trans Ordering.lt Ordering.gt q r s t h k e f = absurd (ground (arith, k))
then_trans Ordering.eq Ordering.lt q r s t h k e f = rw e refl
then_trans Ordering.eq Ordering.eq q r s t h k e f = rw e (f h k)
then_trans Ordering.eq Ordering.gt q r s t h k e f = absurd (ground (arith, k))
then_trans Ordering.gt p q r s t h k e f = absurd (ground (arith, h))

compare_lt : (a b : ℕ) → a < b → compare_nat a b ≡ Ordering.lt
compare_lt a b h = ground (arith, h)

cons_cons :
    (w x : Char) (a b : String)
    → str_lt (cons_char w a) (cons_char x b)
      ≡ is_lt ((then) (compare_nat (code w) (code x)) (compare a b))
cons_cons w x a b = ap is_lt (compare.cons-cons w x a b)

nil_cons : (x : Char) (b : String) → str_lt no_chars (cons_char x b) ≡ true
nil_cons x b = ap is_lt (compare.nil-cons x b)

cons_nil : (x : Char) (b : String) → str_lt (cons_char x b) no_chars ≡ false
cons_nil x b = ap is_lt (compare.cons-nil x b)

-- A first character in common does not count.
pub str_lt-cons_self :
    (x : Char) (a b : String) → str_lt (cons_char x a) (cons_char x b) ≡ str_lt a b
str_lt-cons_self x a b =
    cons_cons x x a b ∙ ap (λ o. is_lt ((then) o (compare a b))) (compare_self (code x))

-- A smaller first character decides.
pub str_lt-cons :
    (w x : Char) (a b : String) → code w < code x → str_lt (cons_char w a) (cons_char x b) ≡ true
str_lt-cons w x a b h =
    cons_cons w x a b ∙ ap (λ o. is_lt ((then) o (compare a b))) (compare_lt (code w) (code x) h)

pub str_lt_trans : (a b c : String) → str_lt a b ≡ true → str_lt b c ≡ true → str_lt a c ≡ true
str_lt_trans no_chars no_chars c h k = k
str_lt_trans no_chars (cons_char x b) no_chars h k = absurd (ground (arith, k, cons_nil x b))
str_lt_trans no_chars (cons_char x b) (cons_char z c) h k = nil_cons z c
str_lt_trans (cons_char w a) no_chars c h k = absurd (ground (arith, h, cons_nil w a))
str_lt_trans (cons_char w a) (cons_char x b) no_chars h k = absurd (ground (arith, k, cons_nil x b))
str_lt_trans (cons_char w a) (cons_char x b) (cons_char z c) h k =
    cons_cons w z a c
    ∙ then_trans (compare_nat (code w) (code x)) (compare_nat (code x) (code z))
        (compare_nat (code w) (code z)) (compare a b) (compare b c) (compare a c)
        (sym (cons_cons w x a b) ∙ h) (sym (cons_cons x z b c) ∙ k)
        (nat_compare (code w) (code x) (code z) _ _ refl refl) (str_lt_trans a b c)

abbrev flip : Ordering → Ordering
flip Ordering.lt = Ordering.gt
flip Ordering.eq = Ordering.eq
flip Ordering.gt = Ordering.lt

nat_compare-flip : (a b : ℕ) (o : Ordering) → compare_nat a b ≡ o → compare_nat b a ≡ flip o
nat_compare-flip a b Ordering.lt h = ground (arith, h)
nat_compare-flip a b Ordering.eq h = ground (arith, h)
nat_compare-flip a b Ordering.gt h = ground (arith, h)

then-flip : (o r : Ordering) → (then) (flip o) (flip r) ≡ flip ((then) o r)
then-flip Ordering.lt r = refl
then-flip Ordering.eq r = refl
then-flip Ordering.gt r = refl

compare-flip : (a b : String) → compare b a ≡ flip (compare a b)
compare-flip no_chars no_chars = compare.nil-nil ∙ ap flip (sym compare.nil-nil)
compare-flip no_chars (cons_char x b) = compare.cons-nil x b ∙ ap flip (sym (compare.nil-cons x b))
compare-flip (cons_char w a) no_chars = compare.nil-cons w a ∙ ap flip (sym (compare.cons-nil w a))
compare-flip (cons_char w a) (cons_char x b) =
    compare.cons-cons x w b a
    ∙ (ap (λ o. (then) o (compare b a)) (nat_compare-flip (code w) (code x) _ refl)
        ∙ (ap ((then) (flip (compare_nat (code w) (code x)))) (compare-flip a b)
            ∙ (then-flip (compare_nat (code w) (code x)) (compare a b)
                ∙ ap flip (sym (compare.cons-cons w x a b)))))

flip_total : (o : Ordering) → is_lt o ≡ false → is_eq o ≡ false → is_lt (flip o) ≡ true
flip_total Ordering.lt h k = absurd (ground (arith, h))
flip_total Ordering.eq h k = absurd (ground (arith, k))
flip_total Ordering.gt h k = refl

-- Of two different texts one comes first.
pub str_lt_total : (a b : String) → str_lt a b ≡ false → (a == b) ≡ false → str_lt b a ≡ true
str_lt_total a b h k = ap is_lt (compare-flip a b) ∙ flip_total (compare a b) h k

pub str_lt_irrefl : (a : String) → str_lt a a ≡ false
str_lt_irrefl a = elim (Bool-cases (str_lt a a)) [
  | inl e ↦ absurd (ground (arith, e, compare-flip a a, eq_iff a a))
  | inr e ↦ e
]

-- Ascending, behind what comes before.
abbrev pub Follows : String → List String → Type 0
Follows a xs = All (λ x. str_lt a x ≡ true) xs

abbrev pub Ascending : List String → Type 0
Ascending [] = Unit {0}
Ascending (x ∷ xs) = Follows x xs × Ascending xs

pub Follows-trans :
    (a b : String) (xs : List String) → str_lt a b ≡ true → Follows b xs → Follows a xs
Follows-trans a b [] h t = tt
Follows-trans a b (x ∷ xs) h t = (str_lt_trans a b x h t.0, Follows-trans a b xs h t.1)

insert_id-Follows :
    (a i : String) (xs : List String)
    → str_lt a i ≡ true
    → Follows a xs
    → Follows a (insert_id i xs)
unfolding insert_id
insert_id-Follows a i [] h t = (h, tt)
insert_id-Follows a i (x ∷ xs) h t = elim (Bool-cases (i == x)) [
  | inl e ↦ rw e t
  | inr e ↦ elim (Bool-cases (str_lt i x)) [
    | inl f ↦ rw (e, f) (h, t)
    | inr f ↦ rw (e, f) (t.0, insert_id-Follows a i xs h t.1)
  ]
]

insert_id-Ascending : (i : String) (xs : List String) → Ascending xs → Ascending (insert_id i xs)
unfolding insert_id
insert_id-Ascending i [] h = (tt, tt)
insert_id-Ascending i (x ∷ xs) h = elim (Bool-cases (i == x)) [
  | inl e ↦ rw e h
  | inr e ↦ elim (Bool-cases (str_lt i x)) [
    | inl f ↦ rw (e, f) ((f, Follows-trans i x xs f h.0), h)
    | inr f ↦
        rw (e, f)
          (insert_id-Follows x i xs (str_lt_total i x f e) h.0, insert_id-Ascending i xs h.1)
  ]
]

pub sorted_set-Ascending : (xs : List String) → Ascending (sorted_set xs)
unfolding sorted_set
sorted_set-Ascending [] = tt
sorted_set-Ascending (x ∷ xs) = insert_id-Ascending x (sorted_set xs) (sorted_set-Ascending xs)
