-- ===== src/Identifiers.antt =====
-- platform/api/crashcap_api/ids.py: ULIDs and the identifiers made of them.
mod Digits
mod Encoding
mod Order
mod Forms
mod Tests
use Prim.Native.Char.{Char, code}
use Prim.Native.String.{[] as no_chars, ◌∷◌ as cons_char, char_at}
use crash_cap.Base.{
  ℕ, zero, suc, ◌+◌, ◌*◌, ◌/◌, ◌%◌, ◌^◌, String, Bool, true, false, ◌&&◌, ◌||◌, Option, none, some,
  List, [], ◌∷◌, nat_eq, ltb, leb, if◌then◌else◌, Result, ok, err, ◌>>=◌, ◌>>◌, require, present,
  ◌<>◌,
}
use mathlib.Core.Option
use crash_cap.Base.Keys.{◌==◌, text_keys}

-- The messages of the ValueErrors that the functions raise.
pub data IdError : Type 0 where
  too_wide unsupported_prefix invalid unexpected_prefix : IdError

abbrev pub crockford : String
crockford = "0123456789ABCDEFGHJKMNPQRSTVWXYZ"

-- The index is always below 32 here.
unfoldable pub symbol : ℕ → Char
symbol d = char_at crockford d

-- The loop over the positions from the last to the first: the text, and what is left of the value.
unfoldable pub encode_loop : ℕ → ℕ → String → String × ℕ
encode_loop zero value text = (text, value)
encode_loop (suc n) value text = encode_loop n (value / 32) (cons_char (symbol (value % 32)) text)

-- `_encode`
unfoldable pub encode : ℕ → ℕ → Result IdError String
unfolding encode_loop
encode value length = do
  let r = encode_loop length value no_chars
  require (nat_eq r.1 0) too_wide
  ok r.0

-- `_last_timestamp`, which is -1 at first and `none` here, and `_last_random`.
pub record Generator : Type 0 where
  pub last_timestamp : Option ℕ
  pub last_random : ℕ

abbrev pub fresh : Generator
fresh = record { last_timestamp = none; last_random = 0 }

-- `time.time_ns() // 1_000_000` of a reading of the clock
abbrev pub millis : ℕ → ℕ
millis ns = ns / 1000000

-- The loop that reads the clock until it has passed the last timestamp; `none` while it still runs.
unfoldable pub wait_past : ℕ → List ℕ → Option ℕ
wait_past last [] = none
wait_past last (ns ∷ readings) =
    let rest = wait_past last readings in if ltb last (millis ns) then some (millis ns) else rest

abbrev ulid_text : ℕ → ℕ → Result IdError String
ulid_text timestamp random = do a ← encode timestamp 10; b ← encode random 16; ok (a <> b)

-- The last lines: the globals are written, and the id is encoded.
unfoldable pub issue : ℕ → ℕ → Result IdError String × Generator
issue timestamp random =
    (ulid_text timestamp random, record { last_timestamp = some timestamp; last_random = random })

abbrev pub issue_waited : Option ℕ → ℕ → Option (Result IdError String × Generator)
issue_waited none random = none
issue_waited (some timestamp) random = some (issue timestamp random)

abbrev pub at_timestamp : Option ℕ → ℕ → Bool
at_timestamp none timestamp = false
at_timestamp (some last) timestamp = nat_eq timestamp last

-- `new_ulid`, given the readings of the clock and what `secrets.randbits(80)` draws; `none` while
-- the call waits for the clock.
unfoldable pub new_ulid : Generator → List ℕ → ℕ → Option (Result IdError String × Generator)
unfolding wait_past
new_ulid g [] draw = none
new_ulid g (ns ∷ readings) draw =
    let bumped = (g.last_random + 1) % 2 ^ 80 in
    if at_timestamp g.last_timestamp (millis ns)
    then if nat_eq bumped 0
      then issue_waited (wait_past (millis ns) readings) draw
      else some (issue (millis ns) bumped)
    else some (issue (millis ns) draw)

abbrev pub prefixes : List String
prefixes =
    "usr" ∷ "ses" ∷ "tok" ∷ "wsp" ∷ "art" ∷ "cor" ∷ "ova" ∷ "blob" ∷ "occ" ∷ "run" ∷ "grp" ∷ "upl"
    ∷ []

unfoldable pub listed_prefix : String → List String → Bool
listed_prefix prefix [] = false
listed_prefix prefix (p ∷ ps) = prefix == p || listed_prefix prefix ps

unfoldable pub named :
    String → Result IdError String × Generator → Result IdError String × Generator
named prefix r = (r.0 >>= λ ulid. ok (prefix <> "_" <> ulid), r.1)

-- `new_id`: an unsupported prefix is refused before an id is drawn.
unfoldable pub new_id : String → Generator → List ℕ → ℕ → Option (Result IdError String × Generator)
unfolding named listed_prefix
new_id prefix g readings draw =
    if listed_prefix prefix prefixes
    then Option.map (named prefix) (new_ulid g readings draw)
    else some (err unsupported_prefix, g)

-- `[0-9A-HJKMNP-TV-Z]` of `ID_RE`
unfoldable pub in_class : Char → Bool
in_class c =
    let n = code c in
    leb b'0' n && leb n b'9'
    || leb b'A' n && leb n b'H'
    || nat_eq n b'J'
    || nat_eq n b'K'
    || nat_eq n b'M'
    || nat_eq n b'N'
    || leb b'P' n && leb n b'T'
    || leb b'V' n && leb n b'Z'

-- `[...]{26}$` to the end of the text, for any count
unfoldable pub in_class_times : ℕ → String → Bool
in_class_times zero no_chars = true
in_class_times (suc n) (cons_char c text) = in_class c && in_class_times n text
in_class_times _ _ = false

-- What follows a text at the start of another.
unfoldable pub behind : String → String → Option String
behind no_chars text = some text
behind (cons_char c start) no_chars = none
behind (cons_char c start) (cons_char d text) =
    let rest = behind start text in if nat_eq (code c) (code d) then rest else none

abbrev pub is_body : Option String → Bool
is_body none = false
is_body (some text) = in_class_times 26 text

-- `ID_RE.fullmatch`: the alternatives in order, and the first group.
unfoldable pub match_id : List String → String → Option String
unfolding behind in_class_times in_class
match_id [] text = none
match_id (p ∷ ps) text =
    let rest = match_id ps text in if is_body (behind (p <> "_") text) then some p else rest

abbrev pub is_expected : Option String → String → Bool
is_expected none group = true
is_expected (some prefix) group = group == prefix

-- `validate_id`
unfoldable pub validate_id : String → Option String → Result IdError String
unfolding match_id
validate_id value expected_prefix = do
  group ← present (match_id prefixes value) invalid
  require (is_expected expected_prefix group) unexpected_prefix
  ok value
