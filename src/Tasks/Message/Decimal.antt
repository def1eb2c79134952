-- ===== src/Tasks/Message/Decimal.antt =====
-- The decimal text of a natural number, as an f-string writes it.
use Prim.Native.String.{◌++◌}
use crash_cap.Base.{
  ℕ, zero, suc, ◌/◌, ◌%◌, String, ◌≡◌, refl, true, false, ltb, nat_eq, if◌then◌else◌,
}

digit : ℕ → String
digit d =
    if nat_eq d 0
    then "0"
    else if nat_eq d 1
    then "1"
    else if nat_eq d 2
    then "2"
    else if nat_eq d 3
    then "3"
    else if nat_eq d 4
    then "4"
    else if nat_eq d 5
    then "5"
    else if nat_eq d 6
    then "6"
    else if nat_eq d 7
    then "7"
    else if nat_eq d 8
    then "8"
    else "9"

decimal_fuel : ℕ → ℕ → String
unfolding digit
decimal_fuel zero n = ""
decimal_fuel (suc f) n = elim (ltb n 10) [
  | true ↦ digit n
  | false ↦ decimal_fuel f (n / 10) ++ digit (n % 10)
]

-- A number has at most as many digits as its value and one more.
unfoldable pub decimal : ℕ → String
unfolding decimal_fuel
decimal n = decimal_fuel (suc n) n

decimal_runs : decimal 20_345 ≡ "20345"
unfolding decimal
decimal_runs = refl
