-- ===== src/Tasks/Intents.antt =====
-- `create_task_intent`, `stage_task_message` and `request_task_redelivery` of task_handoff.py. The
-- branch for SQLite, which serves the tests, is left out.
pub mod Unique
pub mod Redelivery
pub mod Keeps
pub mod Stays
use crash_cap.Base.{
  ℕ, String, Bool, true, false, ◌&&◌, ◌||◌, Option, none, some, List, [], ◌∷◌, ◌++◌, if◌then◌else◌,
  after, is_some, or_else, Result, ok, err, ◌>>=◌, ◌>>◌,
}
use crash_cap.Base.Keys.{◌==◌, text_keys, pair_keys}
use crash_cap.Base.Table
use crash_cap.Tasks.Message.{
  Message, get, to_str, TaskError, integrity, TaskIdentity, field, validate_task_message,
  task_identity,
}
use crash_cap.Tasks.Rows.{
  Db, TaskIntent, IntentState, TaskExecution, is_running, is_succeeded, is_pending, is_publishing,
  attempt_key, intent_key, logical_intent, execution_at, save_intent, assert_compatible,
}

-- `str(message["request_id"]) if message.get("request_id") else None`
abbrev pub request_id_of : Message → Option String
request_id_of m = elim (get "request_id" m) [
  | none ↦ none
  | some v ↦ if to_str v == "" then none else some (to_str v)
]

abbrev published_time : IntentState → ℕ → Option ℕ
published_time IntentState.published now = some now
published_time _ now = none

abbrev pub IntentOptions : Type 0
IntentOptions = record { state : IntentState; due_at : Option ℕ; logical_key : Option String }

-- The row that an accepted message becomes.
new_intent : Message → TaskIdentity → String → String → IntentOptions → ℕ → TaskIntent
new_intent m identity attempt version options now = record {
  attempt_id = attempt;
  schema_version = version;
  task_type = identity.task_type;
  queue = identity.queue;
  logical_key = identity.logical_key;
  target_type = identity.target_type;
  target_id = identity.target_id;
  message = m;
  request_id = request_id_of m;
  state = options.state;
  due_at = or_else options.due_at now;
  relay_owner = none;
  relay_generation = 0;
  relay_lease_until = none;
  delivery_attempts = 0;
  published_at = published_time options.state now;
  dead_at = none;
  last_error_code = none;
  created_at = now;
}

-- What both unique constraints of the table let in.
abbrev pub admits : TaskIntent → List TaskIntent → Bool
admits row rows = elim (Table.row_at attempt_key row.attempt_id rows) [
  | some i ↦ false
  | none ↦ elim (Table.row_at intent_key (intent_key row) rows) [ some i ↦ false | none ↦ true ]
]

-- The winner that the second look-up finds, compared with the message.
reuse : Option TaskIntent → Message → TaskIdentity → Result TaskError TaskIntent
reuse none m identity = err integrity
reuse (some existing) m identity = do assert_compatible existing m identity; ok existing

abbrev pub Creation : Type 0
Creation = Result TaskError TaskIntent × Db

insert_intent : TaskIntent → Message → TaskIdentity → Db → Creation
unfolding reuse
insert_intent row m identity db =
    if admits row db.intents
    then (ok row, save_intent row db)
    else (reuse (logical_intent db (intent_key row)) m identity, db)

abbrev pub with_rows : List TaskIntent → Db → Db
with_rows rows db = record db { intents = db.intents ++ rows }

-- `race` holds the intents that other transactions commit between the look-up and the insert; they
-- come into view with the insert.
create_found :
    Option TaskIntent
    → Message
    → IntentOptions
    → List TaskIntent
    → ℕ
    → TaskIdentity
    → String
    → String
    → Db
    → Creation
unfolding insert_intent new_intent
create_found (some existing) m options race now identity attempt version db =
    (reuse (some existing) m identity, db)
create_found none m options race now identity attempt version db =
    let row = new_intent m identity attempt version options now in
    insert_intent row m identity (with_rows race db)

create_identified :
    Message → IntentOptions → List TaskIntent → ℕ → TaskIdentity → String → String → Db → Creation
unfolding create_found
create_identified m options race now identity attempt version db =
    let found = logical_intent db (identity.task_type, identity.logical_key) in
    create_found found m options race now identity attempt version db

-- The identity and the two fields of the row that are read after it.
abbrev pub Checked : Type 0
Checked = TaskIdentity × String × String

unfoldable pub check_message : Message → Option String → Result TaskError Checked
check_message m key = do
  validate_task_message m
  identity ← task_identity m key
  attempt ← field "attempt_id" m
  version ← field "schema_version" m
  ok (identity, attempt, version)

create_checked :
    Result TaskError Checked → Message → IntentOptions → List TaskIntent → ℕ → Db → Creation
unfolding create_identified
create_checked (err e) m options race now db = (err e, db)
create_checked (ok (identity, attempt, version)) m options race now db =
    create_identified m options race now identity attempt version db

unfoldable pub create_task_intent : Message → IntentOptions → List TaskIntent → ℕ → Db → Creation
unfolding create_checked
create_task_intent m options race now db =
    create_checked (check_message m options.logical_key) m options race now db

abbrev pub staged : Option String → IntentOptions
staged key = record { state = IntentState.pending; due_at = none; logical_key = key }

-- The message that is published is the winner's, also when the caller's own attempt lost.
unfoldable pub stage_task_message :
    Message → Option String → List TaskIntent → ℕ → Db → Result TaskError Message × Db
unfolding create_task_intent
stage_task_message m key race now db =
    let (r, db') = create_task_intent m (staged key) race now db in
    (r >>= (λ intent. ok intent.message), db')

pub data DispatchState : Type 0 where
  pending active_lease already_succeeded publishing reopened : DispatchState

pub record RedeliveryDecision : Type 0 where
  pub message : Message
  pub dispatch_state : DispatchState
  pub reopened : Bool

abbrev decision : TaskIntent → DispatchState → Bool → RedeliveryDecision
decision i s b = record { message = i.message; dispatch_state = s; reopened = b }

-- `lease_active` of an execution that was found
abbrev pub lease_active : TaskExecution → ℕ → Bool
lease_active e now = is_running e.outcome && after e.lease_until now

-- Why an execution forbids another delivery, if it does.
abbrev pub settled : Option TaskExecution → ℕ → Option DispatchState
settled none now = none
settled (some e) now =
    if lease_active e now
    then some DispatchState.active_lease
    else if is_succeeded e.outcome
    then some DispatchState.already_succeeded
    else none

reopen : TaskIntent → ℕ → TaskIntent
reopen i now = record i {
  state = IntentState.pending;
  due_at = now;
  relay_owner = none;
  relay_lease_until = none;
  dead_at = none;
  last_error_code = none;
}

redeliver_unsettled : TaskIntent → ℕ → Db → RedeliveryDecision × Db
unfolding reopen
redeliver_unsettled i now db =
    if is_pending i.state
    then (decision i DispatchState.pending false, db)
    else if is_publishing i.state && after i.relay_lease_until now
    then (decision i DispatchState.publishing false, db)
    else (decision i DispatchState.reopened true, save_intent (reopen i now) db)

redeliver : TaskIntent → ℕ → Db → RedeliveryDecision × Db
unfolding redeliver_unsettled
redeliver i now db = elim (settled (execution_at db (intent_key i)) now) [
  | some s ↦ (decision i s false, db)
  | none ↦ redeliver_unsettled i now db
]

abbrev created : Creation → Result TaskError RedeliveryDecision × Db
created (ok i, db) = (ok (decision i DispatchState.pending true), db)
created (err e, db) = (err e, db)

abbrev due_now : ℕ → IntentOptions
due_now now = record { state = IntentState.pending; due_at = some now; logical_key = none }

-- The decision on the intent that the look-up found, or on a new one.
redeliver_known :
    Option TaskIntent
    → Message
    → List TaskIntent
    → ℕ
    → ℕ
    → Db
    → Result TaskError RedeliveryDecision × Db
unfolding redeliver
redeliver_known none m race requested_at now db =
    created (create_task_intent m (due_now requested_at) race now db)
redeliver_known (some i) m race requested_at now db =
    let (d, db') = redeliver i requested_at db in (ok d, db')

redeliver_identified :
    Result TaskError TaskIdentity
    → Message
    → List TaskIntent
    → ℕ
    → ℕ
    → Db
    → Result TaskError RedeliveryDecision × Db
unfolding redeliver_known
redeliver_identified (err e) m race requested_at now db = (err e, db)
redeliver_identified (ok identity) m race requested_at now db =
    let found = logical_intent db (identity.task_type, identity.logical_key) in
    redeliver_known found m race requested_at now db

-- `requested_at` and the clock that `create_task_intent` reads are two instants.
unfoldable pub request_task_redelivery :
    Message → List TaskIntent → ℕ → ℕ → Db → Result TaskError RedeliveryDecision × Db
unfolding redeliver_identified
request_task_redelivery m race requested_at now db =
    redeliver_identified (validate_task_message m >> task_identity m none) m race requested_at now
      db
