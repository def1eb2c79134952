-- ===== src/Identifiers/Forms.antt =====
-- `new_id` and `validate_id` of ids.py: the form of an identifier.
pub mod Drawn
use Prim.Native.Char.{Char, code}
use Prim.Native.String.{[] as no_chars, ◌∷◌ as cons_char, compare, then}
use Prim.Native.String.compare
use Prim.Native.Nat.{Ordering, compare as compare_nat}
use text.Mathlib.Text.{is_eq}
use text.Mathlib.TextEquality.{eq_iff, codes_equal}
use text.Mathlib.TextLemmas.{cons-append, nil-append, append_assoc}
use crash_cap.Base.{
  ℕ, zero, suc, ◌+◌, ◌<◌, ◌≡◌, ◌≢◌, refl, sym, ◌∙◌, ap, String, Bool, true, false, not, ◌&&◌, arith,
  Bool-cases, nat_eq, nat_eq→eq, nat_eq→ne, inl, inr, Option, none, some, List, [], ◌∷◌, ◌<>◌, All,
  if◌then◌else◌, Result, ok, err,
}
use crash_cap.Base.Keys.{◌==◌, text_keys}
use crash_cap.Identifiers.{
  IdError, Generator, behind, is_body, match_id, in_class_times, prefixes, listed_prefix,
  validate_id, new_id, is_expected, unexpected_prefix,
}

-- No character of a text is an underscore.
pub bare : String → Bool
bare no_chars = true
bare (cons_char c text) = not (nat_eq (code c) b'_') && bare text

eq-cons :
    (c d : Char) (s t : String)
    → (cons_char c s == cons_char d t) ≡ (if nat_eq (code c) (code d) then s == t else false)
eq-cons c d s t =
    ap is_eq (compare.cons-cons c d s t) ∙ then-eq (compare_nat (code c) (code d)) (compare s t)
  where
    then-eq :
        (o p : Ordering)
        → is_eq ((then) o p)
          ≡ (if (elim o [ Ordering.eq ↦ true | _ ↦ false ]) then is_eq p else false)
    then-eq Ordering.lt p = refl
    then-eq Ordering.eq p = refl
    then-eq Ordering.gt p = refl

abbrev underscore : Char
underscore = "_"

underscored : (u : String) → "_" <> u ≡ cons_char underscore u
underscored u = cons-append underscore no_chars u ∙ ap (cons_char underscore) (nil-append u)

-- The start of an id fits exactly the alternative that is its prefix.
behind-bare :
    (p q u : String)
    → bare p ≡ true
    → bare q ≡ true
    → behind (p <> "_") (q <> "_" <> u) ≡ (if p == q then some u else none)
unfolding bare behind
behind-bare no_chars no_chars u hp hq = rw (nil-append ("_" <> u), underscored u) refl
behind-bare no_chars (cons_char d q) u hp hq =
    rw (cons-append d q ("_" <> u)) (ground (arith, hq, ap is_eq (compare.nil-cons d q)))
behind-bare (cons_char c p) no_chars u hp hq =
    rw (cons-append c p "_", nil-append ("_" <> u), underscored u)
      (ground (arith, hp, ap is_eq (compare.cons-nil c p)))
behind-bare (cons_char c p) (cons_char d q) u hp hq =
    rw (cons-append c p "_", cons-append d q ("_" <> u), eq-cons c d p q)
      (ground (arith, hp, hq, behind-bare p q u))

all_bare : List String → Bool
all_bare [] = true
all_bare (p ∷ ps) = bare p && all_bare ps

prefixes_bare : all_bare prefixes ≡ true
unfolding all_bare bare
prefixes_bare = refl

listed_prefix-bare :
    (p : String) (ps : List String) → all_bare ps ≡ true → listed_prefix p ps ≡ true → bare p ≡ true
unfolding all_bare listed_prefix
listed_prefix-bare p [] h l = ground (arith, l)
listed_prefix-bare p (q ∷ ps) h l = ground (arith, h, l, eq_iff p q, listed_prefix-bare p ps)

match_id-listed :
    (p u : String) (ps : List String)
    → in_class_times 26 u ≡ true
    → bare p ≡ true
    → all_bare ps ≡ true
    → listed_prefix p ps ≡ true
    → match_id ps (p <> "_" <> u) ≡ some p
unfolding all_bare listed_prefix match_id
match_id-listed p u [] body hp h l = ground (arith, l)
match_id-listed p u (q ∷ ps) body hp h l =
    ground (arith, body, h, l, eq_iff p q, eq_iff q p, behind-bare q p u, match_id-listed p u ps)

-- An identifier has the form of its prefix, and of no other.
pub validate_id-listed :
    (p u : String) (e : Option String)
    → in_class_times 26 u ≡ true
    → listed_prefix p prefixes ≡ true
    → validate_id (p <> "_" <> u) e
      ≡ (if is_expected e p then ok (p <> "_" <> u) else err unexpected_prefix)
unfolding validate_id
validate_id-listed p u e body l =
    rw
      (match_id-listed p u prefixes body (listed_prefix-bare p prefixes prefixes_bare l)
        prefixes_bare l)
      (ground arith)
