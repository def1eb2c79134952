-- ===== src/Identifiers/Tests.antt =====
-- Identifiers of ids.py at concrete numbers and texts.
use crash_cap.Base.{
  ◌-◌, ◌^◌, ◌≤◌, ◌<◌, ◌≡◌, refl, ◌⊎◌, String, true, arith, some, List, [], ◌∷◌, ok, err,
}
use crash_cap.Base.Sorting.{str_lt}
use crash_cap.Base.Ascending.{Ascending}
use crash_cap.Identifiers.{
  too_wide, unexpected_prefix, symbol, issue, encode, fresh, new_ulid, new_id, validate_id,
}
use crash_cap.Identifiers.Encoding.{decode, encode-decode}
use crash_cap.Identifiers.Order.{ulid_of}
use crash_cap.Identifiers.Order.Calls.{Call, served, issued_at, served-Ascending, new_ulid-back}
use crash_cap.Identifiers.Forms.Drawn.{validate_id-new_id}

encode_widest : encode (2 ^ 10 - 1) 2 ≡ ok "ZZ"
unfolding encode symbol
encode_widest = refl

encode_wide : encode (2 ^ 10) 2 ≡ err too_wide
unfolding encode symbol
encode_wide = refl

encode-decode_example :
    ((1600 < 32 ^ 3) × (text : String) × (encode 1600 3 ≡ ok text) × (decode 0 text ≡ some 1600))
    ⊎ ((32 ^ 3 ≤ 1600) × (encode 1600 3 ≡ err too_wide))
encode-decode_example = encode-decode 1600 3

-- Two calls in one millisecond, one with the last random number, which waits for the next millisecond.
abbrev calls : List Call
calls =
    record { readings = 5000000 ∷ []; draw = 2 ^ 80 - 2 }
    ∷ record { readings = 5100000 ∷ []; draw = 0 }
    ∷ record { readings = 5200000 ∷ 5300000 ∷ 6000000 ∷ []; draw = 7 }
    ∷ []

three_ids :
    served fresh calls
    ≡ "0000000005ZZZZZZZZZZZZZZZY" ∷ "0000000005ZZZZZZZZZZZZZZZZ" ∷ "00000000060000000000000007"
      ∷ []
unfolding served new_ulid issue encode symbol
three_ids = refl

served-Ascending_example : Ascending (served fresh calls)
served-Ascending_example = served-Ascending calls (omega arith) (omega arith)

new_ulid-back_example :
    (new_ulid (issued_at 6 7) (5000000 ∷ []) 9 ≡ some (ok (ulid_of 5 9), issued_at 5 9))
    × (str_lt (ulid_of 5 9) (ulid_of 6 7) ≡ true)
new_ulid-back_example = new_ulid-back 6 7 5000000 [] 9 (omega arith) (omega arith) (omega arith)

abbrev drawn_id : String
drawn_id = "run_00000000050000000000000009"

drawn_at_five : new_id "run" fresh (5000000 ∷ []) 9 ≡ some (ok drawn_id, issued_at 5 9)
unfolding new_id new_ulid issue encode symbol
drawn_at_five = refl

validate_id-new_id_example : validate_id drawn_id (some "wsp") ≡ err unexpected_prefix
validate_id-new_id_example =
    validate_id-new_id "run" (some "wsp") fresh (5000000 ∷ []) 9 drawn_at_five
