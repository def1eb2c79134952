-- ===== src/Identifiers/Forms/Drawn.antt =====
-- What `new_ulid` and `new_id` of ids.py return has the form of an identifier.
use Prim.Native.String.{[] as no_chars}
use mathlib.Core.Path.{subst}
use mathlib.Core.Option
use crash_cap.Base.{
  ℕ, ◌+◌, ◌%◌, ◌^◌, ◌≡◌, refl, String, true, arith, Bool-cases, nat_eq, inl, inr, Option, none,
  some, List, [], ◌∷◌, ◌<>◌, if◌then◌else◌, Result, ◌>>=◌, ok, err,
}
use crash_cap.Identifiers.{
  IdError, Generator, encode, issue, issue_waited, wait_past, millis, new_ulid, at_timestamp,
  new_id, named, listed_prefix, prefixes, validate_id, is_expected, unexpected_prefix,
  unsupported_prefix, in_class_times,
}
use crash_cap.Identifiers.Encoding.{encode-eq, encode_loop-in_class}
use crash_cap.Identifiers.Order.{ulid_of, ulid_of-eq}
use crash_cap.Identifiers.Forms.{validate_id-listed}

abbrev IsBody : Result IdError String → Type 0
IsBody (ok id) = in_class_times 26 id ≡ true
IsBody (err e) = Unit {0}

ulid_of-in_class : (t r : ℕ) → in_class_times 26 (ulid_of t r) ≡ true
unfolding in_class_times
ulid_of-in_class t r = rw (ulid_of-eq t r) (
    encode_loop-in_class 10 t 16 26 _ (omega arith)
      (encode_loop-in_class 16 r 0 16 no_chars (omega arith) refl))

joined-eq :
    (t r : ℕ) (x y : Result IdError String) {id : String}
    → encode t 10 ≡ x
    → encode r 16 ≡ y
    → (x >>= λ a. y >>= λ b. ok (a <> b)) ≡ ok id
    → id ≡ ulid_of t r
unfolding ulid_of
joined-eq t r (ok a) (ok b) {id} hx hy h =
    ground (arith, h, (encode-eq t 10 {text = a} hx).1, (encode-eq r 16 {text = b} hy).1)
joined-eq t r (ok a) (err e) hx hy h = ground (arith, h)
joined-eq t r (err e) y hx hy h = ground (arith, h)

issue-eq : (t r : ℕ) {id : String} → (issue t r).0 ≡ ok id → id ≡ ulid_of t r
unfolding issue
issue-eq t r h = joined-eq t r _ _ refl refl h

Result-IsBody : (t r : ℕ) (o : Result IdError String) → (issue t r).0 ≡ o → IsBody o
Result-IsBody t r (ok id) h = rw (issue-eq t r h) (ulid_of-in_class t r)
Result-IsBody t r (err e) h = tt

issue-IsBody : (t r : ℕ) → IsBody (issue t r).0
issue-IsBody t r = Result-IsBody t r _ refl

abbrev Bodied : Option (Result IdError String × Generator) → Type 0
Bodied none = Unit {0}
Bodied (some r) = IsBody r.0

issue_waited-Bodied : (o : Option ℕ) (draw : ℕ) → Bodied (issue_waited o draw)
issue_waited-Bodied none draw = tt
issue_waited-Bodied (some t) draw = issue-IsBody t draw

new_ulid-Bodied : (g : Generator) (readings : List ℕ) (draw : ℕ) → Bodied (new_ulid g readings draw)
unfolding new_ulid
new_ulid-Bodied g [] draw = tt
new_ulid-Bodied g (ns ∷ rs) draw = elim (Bool-cases (at_timestamp g.last_timestamp (millis ns))) [
  | inl e ↦ elim (Bool-cases (nat_eq ((g.last_random + 1) % 2 ^ 80) 0)) [
    | inl f ↦ rw (e, f) (issue_waited-Bodied (wait_past (millis ns) rs) draw)
    | inr f ↦ rw (e, f) (issue-IsBody (millis ns) ((g.last_random + 1) % 2 ^ 80))
  ]
  | inr e ↦ rw e (issue-IsBody (millis ns) draw)
]

named-validate_id :
    (p : String) (e : Option String) (o : Option (Result IdError String × Generator)) {id : String}
    {h : Generator}
    → listed_prefix p prefixes ≡ true
    → Bodied o
    → Option.map (named p) o ≡ some (ok id, h)
    → validate_id id e ≡ (if is_expected e p then ok id else err unexpected_prefix)
unfolding new_id
named-validate_id p e none l b eq = ground (arith, eq)
named-validate_id p e (some (err x, g)) l b eq = ground (arith, eq)
named-validate_id p e (some (ok u, g)) {id} {h} l b eq =
    subst (λ t. validate_id t e ≡ (if is_expected e p then ok t else err unexpected_prefix))
      {x = p <> "_" <> u} (ground (arith, eq)) (validate_id-listed p u e b l)

-- An id that `new_id` returns is valid under the prefix that it was drawn for, or if no prefix is
-- asked for, and is refused under any other.
pub validate_id-new_id :
    (p : String) (e : Option String) (g : Generator) (readings : List ℕ) (draw : ℕ) {id : String}
    {h : Generator}
    → new_id p g readings draw ≡ some (ok id, h)
    → validate_id id e ≡ (if is_expected e p then ok id else err unexpected_prefix)
unfolding new_id
validate_id-new_id p e g readings draw {id} {h} eq = elim (Bool-cases (listed_prefix p prefixes)) [
  | inl l ↦ named-validate_id p e (new_ulid g readings draw) l (new_ulid-Bodied g readings draw) (
      subst
        (λ b.
          (if b
            then Option.map (named p) (new_ulid g readings draw)
            else some (err unsupported_prefix, g))
          ≡ some (ok id, h))
        l eq)
  | inr l ↦ absurd (ground (arith, l, eq))
]
