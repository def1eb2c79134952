-- ===== src/Tasks/Message.antt =====
-- Task messages: the contract contracts/task-message-v3.schema.json that `validate_task_message` of
-- platform/api/crashcap_api/contracts.py checks, and `task_identity` and `_semantic_payload` of
-- task_handoff.py.
mod Decimal
pub mod Shapes
use Decimal.{decimal}
use mathlib.Core.Bool.{not}
use crash_cap.Base.{
  ℕ, String, Bool, true, false, ◌&&◌, ◌||◌, Option, none, some, List, [], ◌∷◌, if◌then◌else◌,
  nat_eq, leb, Result, ok, err, ◌>>=◌, ◌>>◌, require, present, keep_if,
}
use crash_cap.Base.Keys.{◌==◌, text_keys}
use Prim.Native.String.{◌++◌}

-- A value of a JSON object. A float without a fraction, such as 1.0, has its value and its text; what is neither
-- a text nor a natural number is kept by its text.
pub data Value : Type 0 where
  text : String → Value
  number : ℕ → Value
  whole : ℕ → String → Value
  other : String → Value

abbrev pub value_eq : Value → Value → Bool
value_eq (text a) (text b) = a == b
value_eq (number a) (number b) = nat_eq a b
value_eq (number a) (whole b s) = nat_eq a b
value_eq (whole a s) (number b) = nat_eq a b
value_eq (whole a s) (whole b t) = nat_eq a b
value_eq (other a) (other b) = a == b
value_eq _ _ = false

-- `str(value)`
abbrev pub to_str : Value → String
to_str (text s) = s
to_str (number n) = decimal n
to_str (whole n s) = s
to_str (other s) = s

-- A Python `dict` with text keys, by its items.
abbrev pub Message : Type 0
Message = List (String × Value)

unfoldable pub get : String → Message → Option Value
get k [] = none
get k ((j, v) ∷ m) = let rest = get k m in if j == k then some v else rest

pub data TaskError : Type 0 where
  validation : TaskError  -- ApiError("VALIDATION", ...)
  receipt : String → TaskError  -- TaskReceiptError(reason)
  missing_key : String → TaskError  -- KeyError(key)
  integrity : TaskError  -- sqlalchemy IntegrityError

-- The contract, one test for each keyword of the schema.
abbrev text_where : (String → Bool) → Option Value → Bool
text_where p (some (text s)) = p s
text_where p _ = false

abbrev optional : (Option Value → Bool) → Option Value → Bool
optional p none = true
optional p (some v) = p (some v)

-- `"type": "integer"` also holds of a float without a fraction.
abbrev number_from : ℕ → Option Value → Bool
number_from least (some (number n)) = leb least n
number_from least (some (whole n s)) = leb least n
number_from least _ = false

abbrev non_empty : String → Bool
non_empty s = not (s == "")

abbrev is_const : String → Option Value → Bool
is_const c = text_where (λ s. s == c)

-- additionalProperties: false
only_keys : (String → Bool) → Message → Bool
only_keys p [] = true
only_keys p ((k, v) ∷ m) = p k && only_keys p m

abbrev common_key : String → Bool
common_key k =
    k == "schema_version"
    || k == "task_type"
    || k == "attempt_id"
    || k == "queue"
    || k == "request_id"

analyze_contract : Message → Bool
unfolding only_keys
analyze_contract m =
    only_keys (λ k. common_key k || k == "run_id") m
    && is_const "1.2" (get "schema_version" m)
    && is_const "analyze_frozen_run" (get "task_type" m)
    && text_where non_empty (get "run_id" m)
    && text_where non_empty (get "attempt_id" m)
    && text_where (λ q. q == "dump-small" || q == "dump-large") (get "queue" m)
    && optional (text_where non_empty) (get "request_id" m)

role_contract : Message → Bool
unfolding only_keys
role_contract m =
    only_keys (λ k. common_key k || k == "workspace_id" || k == "role_version") m
    && is_const "1.2" (get "schema_version" m)
    && is_const "dispatch_workspace_role" (get "task_type" m)
    && text_where non_empty (get "workspace_id" m)
    && number_from 1 (get "role_version" m)
    && text_where non_empty (get "attempt_id" m)
    && is_const "ingest" (get "queue" m)
    && optional (text_where non_empty) (get "request_id" m)

verify_contract : Message → Bool
unfolding only_keys
verify_contract m =
    only_keys (λ k. common_key k || k == "upload_id") m
    && is_const "1.0" (get "schema_version" m)
    && is_const "verify_upload" (get "task_type" m)
    && text_where non_empty (get "upload_id" m)
    && text_where non_empty (get "attempt_id" m)
    && is_const "verify" (get "queue" m)
    && optional (text_where (λ s. true)) (get "request_id" m)

symbols_contract : Message → Bool
unfolding only_keys
symbols_contract m =
    only_keys (λ k. common_key k || k == "job_id") m
    && is_const "1.2" (get "schema_version" m)
    && is_const "fetch_public_symbols" (get "task_type" m)
    && text_where non_empty (get "job_id" m)
    && text_where non_empty (get "attempt_id" m)
    && is_const "public-symbols" (get "queue" m)
    && optional (text_where non_empty) (get "request_id" m)

-- `oneOf`: the four alternatives name different task types, so no two of them hold at once.
unfoldable pub satisfies_contract : Message → Bool
unfolding analyze_contract role_contract verify_contract symbols_contract get
satisfies_contract m =
    analyze_contract m || role_contract m || verify_contract m || symbols_contract m

unfoldable pub validate_task_message : Message → Result TaskError (Unit {0})
unfolding satisfies_contract
validate_task_message m = require (satisfies_contract m) validation

-- `str(message[key])`
unfoldable pub field : String → Message → Result TaskError String
unfolding get
field k m = do v ← present (get k m) (missing_key k); ok (to_str v)

pub record TaskIdentity : Type 0 where
  pub task_type : String
  pub queue : String
  pub logical_key : String
  pub target_type : String
  pub target_id : String

-- `logical_key_override or logical_key`
abbrev pub override_or : Option String → String → String
override_or none key = key
override_or (some s) key = if s == "" then key else s

pub record Target : Type 0 where
  pub kind : String
  pub id : String
  pub key : String

-- The branches of `task_identity` on the task type.
target : String → Message → Result TaskError Target
unfolding field decimal
target task_type m =
    if task_type == "verify_upload"
    then (do id ← field "upload_id" m; ok (record { kind = "upload"; id = id; key = id }))
    else if task_type == "dispatch_workspace_role"
    then (do
      id ← field "workspace_id" m
      version ← field "role_version" m
      ok (record { kind = "workspace"; id = id; key = id ++ (":role:" ++ version) }))
    else if task_type == "analyze_frozen_run"
    then (do id ← field "run_id" m; ok (record { kind = "analysis_run"; id = id; key = id }))
    else if task_type == "fetch_public_symbols"
    then (do id ← field "job_id" m; ok (record { kind = "public_symbol_job"; id = id; key = id }))
    else err (receipt "unsupported task type")

unfoldable pub task_identity : Message → Option String → Result TaskError TaskIdentity
unfolding target field decimal
task_identity m override = do
  task_type ← field "task_type" m
  queue ← field "queue" m
  found ← target task_type m
  ok (record {
    task_type = task_type;
    queue = queue;
    logical_key = override_or override found.key;
    target_type = found.kind;
    target_id = found.id;
  })

-- `_semantic_payload` leaves out the two keys that name a delivery and not the work.
abbrev pub semantic_key : String → Bool
semantic_key k = not (k == "attempt_id" || k == "request_id")

abbrev pub semantic_payload : Message → Message
semantic_payload m = keep_if (λ item. semantic_key item.0) m

abbrev option_eq : Option Value → Option Value → Bool
option_eq none none = true
option_eq (some v) (some w) = value_eq v w
option_eq _ _ = false

-- Equality of dicts: the same value, or none, at every key of either.
agree_on : Message → Message → Message → Bool
unfolding get
agree_on [] m n = true
agree_on ((k, v) ∷ items) m n = option_eq (get k m) (get k n) && agree_on items m n

unfoldable pub same_payload : Message → Message → Bool
unfolding agree_on
same_payload m n =
    let a = semantic_payload m in let b = semantic_payload n in agree_on a a b && agree_on b a b
