-- ===== src/Identifiers/Digits.antt =====
-- The 32 symbols of ids.py: each stands for one digit, and they come in the order of the digits.
use Prim.Native.Char.{Char, code}
use Prim.Native.String.{[] as no_chars, ◌∷◌ as cons_char}
use crash_cap.Base.{
  ℕ, zero, suc, ◌+◌, ◌<◌, ◌≡◌, refl, String, Bool, true, false, arith, nat_eq, ltb, ltb→lt,
  if◌then◌else◌, Option, none, some,
}
use crash_cap.Identifiers.{symbol, crockford, in_class}

-- Where a character stands in a text.
pub position : Char → String → ℕ → Option ℕ
position c no_chars i = none
position c (cons_char d text) i =
    let rest = position c text (i + 1) in if nat_eq (code c) (code d) then some i else rest

-- Whether a test holds of all digits under a bound.
passes : (ℕ → Bool) → ℕ → Bool
passes test zero = true
passes test (suc d) = if test d then passes test d else false

passes-test : (test : ℕ → Bool) (bound d : ℕ) → d < bound → passes test bound ≡ true → test d ≡ true
unfolding passes
passes-test test zero d lt table = absurd (omega arith)
passes-test test (suc bound) d lt table = ground (arith, table, lt, passes-test test bound d)

is_digit : Option ℕ → ℕ → Bool
is_digit none d = false
is_digit (some e) d = nat_eq e d

is_digit-eq : (o : Option ℕ) (d : ℕ) → is_digit o d ≡ true → o ≡ some d
unfolding is_digit
is_digit-eq none d h = ground (arith, h)
is_digit-eq (some e) d h = ground (arith, h)

digit_table : passes (λ d. is_digit (position (symbol d) crockford 0) d) 32 ≡ true
unfolding passes symbol position is_digit
digit_table = refl

-- The symbol of a digit stands at the place of the digit.
pub position-symbol : (d : ℕ) → d < 32 → position (symbol d) crockford 0 ≡ some d
position-symbol d h = is_digit-eq _ d (passes-test _ 32 d h digit_table)

abbrev smaller_symbol : ℕ → ℕ → Bool
smaller_symbol e d = ltb (code (symbol d)) (code (symbol e))

order_table : passes (λ e. passes (smaller_symbol e) e) 32 ≡ true
unfolding passes symbol
order_table = refl

-- A smaller digit has a smaller symbol.
pub symbol-lt : (d e : ℕ) → d < e → e < 32 → code (symbol d) < code (symbol e)
symbol-lt d e lt h = ltb→lt _ _ (
    passes-test (smaller_symbol e) e d lt
      (passes-test (λ k. passes (smaller_symbol k) k) 32 e h order_table))

class_table : passes (λ d. in_class (symbol d)) 32 ≡ true
unfolding passes symbol in_class
class_table = refl

-- `ID_RE` takes every symbol.
pub in_class-symbol : (d : ℕ) → d < 32 → in_class (symbol d) ≡ true
in_class-symbol d h = passes-test _ 32 d h class_table
