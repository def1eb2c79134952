-- ===== src/Tasks/Rows.antt =====
-- The rows of `task_intents` and `task_executions` (platform/api/crashcap_api/models.py), the values
-- that task_handoff.py returns, and the helpers that it compares and edits rows with.
pub mod Views
use crash_cap.Base.{
  ℕ, zero, suc, String, Bool, true, false, ◌&&◌, Option, none, some, List, nat_eq, Result, ◌>>◌,
  require,
}
use crash_cap.Base.Keys.{◌==◌, text_keys, pair_keys}
use crash_cap.Base.Table
use crash_cap.Tasks.Message.{
  Message, Value, get, to_str, TaskError, receipt, TaskIdentity, same_payload,
}
use Prim.Native.String.{◌∷◌ as cons_char, [] as no_chars}

pub data IntentState : Type 0 where
  pending publishing published dead : IntentState

pub data Outcome : Type 0 where
  idle running succeeded failed dead : Outcome

pub record TaskIntent : Type 0 where
  pub attempt_id : String
  pub schema_version : String
  pub task_type : String
  pub queue : String
  pub logical_key : String
  pub target_type : String
  pub target_id : String
  pub message : Message
  pub request_id : Option String
  pub state : IntentState
  pub due_at : ℕ
  pub relay_owner : Option String
  pub relay_generation : ℕ
  pub relay_lease_until : Option ℕ
  pub delivery_attempts : ℕ
  pub published_at : Option ℕ
  pub dead_at : Option ℕ
  pub last_error_code : Option String
  pub created_at : ℕ

pub record TaskExecution : Type 0 where
  pub task_type : String
  pub logical_key : String
  pub active_attempt_id : String
  pub generation : ℕ
  pub owner_id : Option String
  pub lease_until : Option ℕ
  pub outcome : Outcome
  pub updated_at : ℕ

-- The two tables, as a transaction reads and writes them through its `Session`.
pub record Db : Type 0 where
  pub intents : List TaskIntent
  pub executions : List TaskExecution

pub data ClaimReason : Type 0 where
  first_claim lease_reclaim already_succeeded active_lease : ClaimReason

pub record TaskClaim : Type 0 where
  pub acquired : Bool
  pub task_type : String
  pub logical_key : String
  pub attempt_id : String
  pub generation : ℕ
  pub owner_id : String
  pub reason : ClaimReason

pub record RelayClaim : Type 0 where
  pub attempt_id : String
  pub generation : ℕ
  pub owner_id : String
  pub message : Message

-- Primary key of an intent; the unique pair that makes it one logical task; primary key of an
-- execution.
abbrev pub attempt_key : TaskIntent → String
attempt_key i = i.attempt_id

abbrev pub intent_key : TaskIntent → String × String
intent_key i = (i.task_type, i.logical_key)

abbrev pub execution_key : TaskExecution → String × String
execution_key e = (e.task_type, e.logical_key)

abbrev pub claim_key : TaskClaim → String × String
claim_key c = (c.task_type, c.logical_key)

unfoldable pub execution_at : Db → String × String → Option TaskExecution
execution_at db key = Table.row_at execution_key key db.executions

unfoldable pub intent_at : Db → String → Option TaskIntent
intent_at db attempt = Table.row_at attempt_key attempt db.intents

unfoldable pub logical_intent : Db → String × String → Option TaskIntent
logical_intent db key = Table.row_at intent_key key db.intents

unfoldable pub save_execution : TaskExecution → Db → Db
save_execution e db = record db { executions = Table.save execution_key e db.executions }

unfoldable pub save_intent : TaskIntent → Db → Db
save_intent i db = record db { intents = Table.save attempt_key i db.intents }

abbrev pub is_running : Outcome → Bool
is_running running = true
is_running _ = false

abbrev pub is_succeeded : Outcome → Bool
is_succeeded succeeded = true
is_succeeded _ = false

abbrev pub is_publishing : IntentState → Bool
is_publishing publishing = true
is_publishing _ = false

abbrev pub is_pending : IntentState → Bool
is_pending pending = true
is_pending _ = false

-- `optional == text`
abbrev pub names : Option String → String → Bool
names none s = false
names (some t) s = t == s

-- _matches, of an execution row that was found
abbrev pub matches : TaskExecution → TaskClaim → Bool
matches e c =
    e.active_attempt_id == c.attempt_id
    && nat_eq e.generation c.generation
    && names e.owner_id c.owner_id

-- _relay_matches
abbrev pub relay_matches : TaskIntent → RelayClaim → Bool
relay_matches i c =
    is_publishing i.state
    && names i.relay_owner c.owner_id
    && nat_eq i.relay_generation c.generation

-- _assert_compatible
unfoldable pub assert_compatible : TaskIntent → Message → TaskIdentity → Result TaskError (Unit {0})
assert_compatible i m identity = do
  require (i.queue == identity.queue && i.target_type == identity.target_type)
      (receipt "task delivery conflicts with its durable routing intent")
  require (i.target_id == identity.target_id)
      (receipt "task delivery conflicts with its durable logical target")
  require (same_payload i.message m)
      (receipt "task delivery payload conflicts with its durable intent")

-- `str(message.get(key)) == value`; a missing key reads as the text None
abbrev says : Option Value → String → Bool
says none s = "None" == s
says (some v) s = to_str v == s

-- _assert_intent_envelope
unfoldable pub assert_intent_envelope : TaskIntent → Result TaskError (Unit {0})
assert_intent_envelope i = do
  require (says (get "attempt_id" i.message) i.attempt_id)
      (receipt "task intent attempt envelope conflicts with its message")
  require (says (get "task_type" i.message) i.task_type)
      (receipt "task intent type envelope conflicts with its message")
  require (says (get "queue" i.message) i.queue)
      (receipt "task intent queue envelope conflicts with its message")

-- `code[:200]`
first_chars : ℕ → String → String
first_chars zero s = ""
first_chars (suc n) no_chars = ""
first_chars (suc n) (cons_char c s) = cons_char c (first_chars n s)

unfoldable pub short_code : String → String
unfolding first_chars
short_code code = first_chars 200 code

-- _poison_intent
unfoldable pub poison_intent : TaskIntent → String → ℕ → TaskIntent
poison_intent i error_code now = record i {
  state = IntentState.dead;
  dead_at = some now;
  relay_owner = none;
  relay_lease_until = none;
  last_error_code = some (short_code error_code);
}
