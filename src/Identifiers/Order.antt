-- ===== src/Identifiers/Order.antt =====
-- ULIDs of one process come in the order in which they are drawn, while the clock does not go back.
pub mod Calls
use Prim.Native.String.{[] as no_chars}
use text.Mathlib.TextLemmas.{nil-append}
use crash_cap.Base.{
  ℕ, zero, suc, ◌+◌, ◌/◌, ◌%◌, ◌^◌, ◌≤◌, ◌<◌, ◌≡◌, refl, sym, ◌∙◌, ap, String, Bool, true, false,
  arith, Bool-cases, ltb, leb, nat_eq, nat_eq→eq, nat_eq→ne, ltb→lt, inl, inr, Option, none, some,
  List, [], ◌∷◌, ◌++◌, ◌<>◌, All, if◌then◌else◌, Result, ok, err,
}
use crash_cap.Base.Sorting.{str_lt}
use crash_cap.Base.Ascending.{Ascending, Follows, Follows-trans, str_lt_trans, str_lt_irrefl}
use crash_cap.Identifiers.{
  IdError, Generator, encode_loop, encode, millis, fresh, wait_past, issue, new_ulid,
}
use crash_cap.Identifiers.Encoding.{
  encode_loop-append, encode_loop-same, encode_loop-lt, encode_loop-left,
}

-- The 26 symbols of a timestamp and a random number.
unfoldable pub ulid_of : ℕ → ℕ → String
ulid_of timestamp random =
    (encode_loop 10 timestamp no_chars).0 <> (encode_loop 16 random no_chars).0

pub ulid_of-eq : (t r : ℕ) → ulid_of t r ≡ (encode_loop 10 t (encode_loop 16 r no_chars).0).0
unfolding ulid_of
ulid_of-eq t r =
    encode_loop-append 10 t no_chars _ ∙ ap (λ s. (encode_loop 10 t s).0) (nil-append _)

-- The timestamp decides.
pub ulid_of-later : (t u r q : ℕ) → t < u → u < 2 ^ 50 → str_lt (ulid_of t r) (ulid_of u q) ≡ true
ulid_of-later t u r q lt h =
    rw (ulid_of-eq t r, ulid_of-eq u q)
      (encode_loop-lt 10 t u _ _ lt ((encode_loop-left 10 u _).1 h))

-- At one timestamp the random number does.
pub ulid_of-next : (t r q : ℕ) → r < q → q < 2 ^ 80 → str_lt (ulid_of t r) (ulid_of t q) ≡ true
ulid_of-next t r q lt h =
    rw (ulid_of-eq t r, ulid_of-eq t q)
      (encode_loop-same 10 t _ _ (encode_loop-lt 16 r q _ _ lt ((encode_loop-left 16 q _).1 h)))

-- Numbers that fit are issued.
pub issue-ok :
    (t r : ℕ)
    → t < 2 ^ 50
    → r < 2 ^ 80
    → issue t r ≡ (ok (ulid_of t r), record { last_timestamp = some t; last_random = r })
unfolding issue encode ulid_of
issue-ok t r ht hr =
    rw ((encode_loop-left 10 t no_chars).1 ht, (encode_loop-left 16 r no_chars).1 hr) refl
