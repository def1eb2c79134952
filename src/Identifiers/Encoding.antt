-- ===== src/Identifiers/Encoding.antt =====
-- `_encode` of ids.py against a decoder: nothing is lost, and the order of numbers is kept.
use Prim.Native.String.{[] as no_chars, ◌∷◌ as cons_char}
use native.Mathlib.Nat.{pow-suc}
use native.Mathlib.Decide.{dec_le}
use mathlib.Core.Path.{subst}
use text.Mathlib.TextLemmas.{cons-append}
use crash_cap.Base.{
  ℕ, zero, suc, ◌+◌, ◌*◌, ◌/◌, ◌%◌, ◌^◌, ◌≤◌, ◌<◌, ◌≡◌, refl, sym, ◌∙◌, ap, ◌↔◌, ◌⊎◌, String, true,
  arith, nat_eq, nat_eq→eq, nat_eq→ne, Bool-cases, ltb, ltb→lt, not-ltb, ◌<>◌, inl, inr, Option,
  none, some, ok, err,
}
use crash_cap.Base.Sorting.{str_lt}
use crash_cap.Base.Ascending.{str_lt-cons_self, str_lt-cons}
use crash_cap.Identifiers.{symbol, crockford, encode_loop, encode, too_wide, in_class_times}
use crash_cap.Identifiers.Digits.{position, position-symbol, symbol-lt, in_class-symbol}

-- The number that a text of symbols stands for, read from the left, behind what was read before.
pub decode : ℕ → String → Option ℕ
decode value no_chars = some value
decode value (cons_char c text) = elim (position c crockford 0) [
  | none ↦ none
  | some d ↦ decode (value * 32 + d) text
]

decode-symbol :
    (value d : ℕ) (text : String)
    → d < 32
    → decode value (cons_char (symbol d) text) ≡ decode (value * 32 + d) text
unfolding decode
decode-symbol value d text h = rw (decode, position-symbol d h) refl

encode_loop-decode :
    (n value : ℕ) (text : String)
    → (encode_loop n value text).1 ≡ 0
    → decode 0 (encode_loop n value text).0 ≡ decode value text
unfolding encode_loop
encode_loop-decode zero value text h = ap (λ v. decode v text) (sym h)
encode_loop-decode (suc n) value text h =
    encode_loop-decode n (value / 32) _ h
    ∙ (decode-symbol (value / 32) (value % 32) text (omega arith)
        ∙ ap (λ v. decode v text) (omega arith))

-- What is left is nothing exactly if the value has at most that many digits.
pub encode_loop-left :
    (n value : ℕ) (text : String) → ((encode_loop n value text).1 ≡ 0) ↔ (value < 32 ^ n)
unfolding encode_loop
encode_loop-left zero value text = ground arith
encode_loop-left (suc n) value text =
    let ih = encode_loop-left n (value / 32) (cons_char (symbol (value % 32)) text) in
    (λ h. omega (arith, pow-suc 32 n, ih.0 h), λ h. ih.1 (omega (arith, pow-suc 32 n, h)))

abbrev left : ℕ → ℕ → ℕ
left value n = (encode_loop n value no_chars).1

-- `_encode` raises exactly on the values that do not fit, and else its text decodes to the value.
pub encode-decode :
    (value n : ℕ)
    → ((value < 32 ^ n)
        × (text : String) × (encode value n ≡ ok text)
        × (decode 0 text ≡ some value))
      ⊎ ((32 ^ n ≤ value) × (encode value n ≡ err too_wide))
unfolding encode decode
encode-decode value n =
    let fits = encode_loop-left n value no_chars in
    elim (Bool-cases (nat_eq (encode_loop n value no_chars).1 0)) [
      | inl e ↦
          let none_left = nat_eq→eq _ _ e in
          inl (
            fits.0 none_left,
            (encode_loop n value no_chars).0,
            rw e refl,
            encode_loop-decode n value no_chars none_left,
          )
      | inr e ↦
          let more : value < 32 ^ n → ⊥ = λ h. nat_eq→ne _ _ e (fits.1 h) in
          inr (
            elim (dec_le (32 ^ n) value) [ yes h ↦ h | no h ↦ absurd (more (omega arith)) ],
            rw e refl,
          )
    ]

-- What stands behind the digits is kept behind them.
pub encode_loop-append :
    (n value : ℕ) (text more : String)
    → (encode_loop n value text).0 <> more ≡ (encode_loop n value (text <> more)).0
unfolding encode_loop
encode_loop-append zero value text more = refl
encode_loop-append (suc n) value text more =
    encode_loop-append n (value / 32) _ more
    ∙ ap (λ t. (encode_loop n (value / 32) t).0) (cons-append _ text more)

pub encode_loop-same :
    (n value : ℕ) (a b : String)
    → str_lt a b ≡ true
    → str_lt (encode_loop n value a).0 (encode_loop n value b).0 ≡ true
unfolding encode_loop
encode_loop-same zero value a b h = h
encode_loop-same (suc n) value a b h =
    encode_loop-same n (value / 32) _ _ (str_lt-cons_self (symbol (value % 32)) a b ∙ h)

-- The digits of a smaller number come first, whatever stands behind.
pub encode_loop-lt :
    (n v w : ℕ) (a b : String)
    → v < w
    → (encode_loop n w b).1 ≡ 0
    → str_lt (encode_loop n v a).0 (encode_loop n w b).0 ≡ true
unfolding encode_loop
encode_loop-lt zero v w a b lt h = absurd (omega arith)
encode_loop-lt (suc n) v w a b lt h = elim (Bool-cases (ltb (v / 32) (w / 32))) [
  | inl e ↦ encode_loop-lt n (v / 32) (w / 32) _ _ (ltb→lt _ _ e) h
  | inr e ↦
      let same : v / 32 ≡ w / 32 = omega (arith, not-ltb _ _ e) in
      subst
        (λ q.
          str_lt (encode_loop n q (cons_char (symbol (v % 32)) a)).0
            (encode_loop n (w / 32) (cons_char (symbol (w % 32)) b)).0
          ≡ true)
        (sym same)
        (encode_loop-same n (w / 32) _ _ (
          str_lt-cons (symbol (v % 32)) (symbol (w % 32)) a b
            (symbol-lt (v % 32) (w % 32) (omega arith) (omega arith))))
]

-- Every position is taken by a symbol.
pub encode_loop-in_class :
    (n value k m : ℕ) (text : String)
    → m ≡ n + k
    → in_class_times k text ≡ true
    → in_class_times m (encode_loop n value text).0 ≡ true
unfolding encode_loop in_class_times
encode_loop-in_class zero value k m text e h =
    subst (λ j. in_class_times j text ≡ true) (omega arith) h
encode_loop-in_class (suc n) value k m text e h =
    encode_loop-in_class n (value / 32) (suc k) m _ (omega arith)
      (rw (in_class-symbol (value % 32) (omega arith)) h)

-- A text that `_encode` returns is what its loop leaves, with nothing left.
pub encode-eq :
    (value n : ℕ) {text : String}
    → encode value n ≡ ok text
    → ((encode_loop n value no_chars).1 ≡ 0) × (text ≡ (encode_loop n value no_chars).0)
unfolding encode
encode-eq value n {text} h = ground (arith, h)
