-- ===== src/Tasks/Claims.antt =====
-- Execution ownership: `claim_task`, `heartbeat_claim`, `claim_is_current`, `finish_claim` and
-- `poison_task_delivery` of task_handoff.py.
pub mod Grants
pub mod Writes
pub mod Quarantine
pub mod Leased
use crash_cap.Base.{
  ℕ, zero, suc, ◌+◌, String, Bool, true, false, ◌&&◌, Option, none, some, if◌then◌else◌, seconds,
  Result, ok, err, ◌>>=◌, ◌>>◌, present, List, [], ◌∷◌, nat_eq,
}
use crash_cap.Base.Keys.{◌==◌, text_keys}
use crash_cap.Tasks.Message.{
  Message, Value, text, get, TaskError, receipt, TaskIdentity, field, validate_task_message,
  task_identity,
}
use crash_cap.Tasks.Rows.{
  Db, TaskIntent, TaskExecution, Outcome, running, succeeded, failed, TaskClaim, ClaimReason,
  first_claim, lease_reclaim, already_succeeded, active_lease, claim_key, intent_key, intent_at,
  execution_at, save_execution, save_intent, is_running, is_succeeded, matches, names,
  execution_key, assert_compatible, poison_intent,
}
use crash_cap.Tasks.Intents.{lease_active}

-- What `claim_task` checks before it looks at the execution.
unfoldable pub check_delivery : Db → Message → Result TaskError (TaskIntent × TaskIdentity)
check_delivery db m = do
  validate_task_message m
  own ← task_identity m none
  attempt ← field "attempt_id" m
  intent ← present (intent_at db attempt) (receipt "task has no durable intent receipt")
  identity ← task_identity m (some intent.logical_key)
  assert_compatible intent m identity
  ok (intent, identity)

-- The condition of heartbeats and of the end of a claim: the row is there, is the claim's, and runs.
abbrev pub holds : Option TaskExecution → TaskClaim → Bool
holds none c = false
holds (some e) c = matches e c && is_running e.outcome

unfoldable pub claim_is_current : Db → TaskClaim → Bool
claim_is_current db c = holds (execution_at db (claim_key c)) c

-- A write under the claim: refused, with nothing changed, if the claim is stale.
write_held : (TaskExecution → TaskExecution) → Option TaskExecution → TaskClaim → Db → Bool × Db
write_held change none c db = (false, db)
write_held change (some e) c db =
    if matches e c && is_running e.outcome
    then (true, save_execution (change e) db)
    else (false, db)

beat : ℕ → ℕ → TaskExecution → TaskExecution
beat lease_seconds now e = record e {
  lease_until = some (now + seconds lease_seconds);
  updated_at = now;
}

settle : Outcome → ℕ → TaskExecution → TaskExecution
settle outcome now e = record e { outcome = outcome; lease_until = none; updated_at = now }

unfoldable pub heartbeat_claim : TaskClaim → ℕ → ℕ → Db → Bool × Db
unfolding write_held beat
heartbeat_claim c lease_seconds now db =
    write_held (beat lease_seconds now) (execution_at db (claim_key c)) c db

-- The caller passes `succeeded`, `failed` or `dead`.
unfoldable pub finish_claim : TaskClaim → Outcome → ℕ → Db → Bool × Db
unfolding write_held settle
finish_claim c outcome now db = write_held (settle outcome now) (execution_at db (claim_key c)) c db

-- A heartbeat or the end of a claim.
pub data HeldWrite : Type 0 where
  beats : TaskClaim → ℕ → ℕ → HeldWrite
  ends : TaskClaim → Outcome → ℕ → HeldWrite

unfoldable pub write_of : HeldWrite → Db → Db
write_of (beats c lease_seconds now) db = (heartbeat_claim c lease_seconds now db).1
write_of (ends c outcome now) db = (finish_claim c outcome now db).1

-- The transactions that commit while `claim_task` is between its read of the execution, which takes no
-- lock, and its write. `heartbeat_claim` and `finish_claim` lock nothing but the execution, and
-- the recovery of analysis_recovery.py ends one as `finish_claim` does with `failed`; whatever else writes
-- executions waits for the row of the intent.
unfoldable pub meanwhile : List HeldWrite → Db → Db
unfolding write_of
meanwhile [] db = db
meanwhile (w ∷ ws) db = meanwhile ws (write_of w db)

abbrev acquired_claim : TaskExecution → TaskIntent → String → ClaimReason → TaskClaim
acquired_claim e i owner reason = record {
  acquired = true;
  task_type = e.task_type;
  logical_key = e.logical_key;
  attempt_id = i.attempt_id;
  generation = e.generation;
  owner_id = owner;
  reason = reason;
}

-- _rejected_claim
rejected_claim : TaskExecution → String → ClaimReason → TaskClaim
rejected_claim e owner reason = record {
  acquired = false;
  task_type = e.task_type;
  logical_key = e.logical_key;
  attempt_id = e.active_attempt_id;
  generation = e.generation;
  owner_id = owner;
  reason = reason;
}

first_execution : TaskIntent → TaskIdentity → String → ℕ → ℕ → TaskExecution
first_execution i identity owner lease_seconds now = record {
  task_type = identity.task_type;
  logical_key = identity.logical_key;
  active_attempt_id = i.attempt_id;
  generation = 1;
  owner_id = some owner;
  lease_until = some (now + seconds lease_seconds);
  outcome = running;
  updated_at = now;
}

-- A column in the UPDATE of a row that was read and changed: SQLAlchemy writes it if the value that was
-- assigned differs from the one that was read.
abbrev set_column : {A : Type 0} → Bool → A → A → A
set_column unchanged stored value = if unchanged then stored else value

abbrev same_lease : Option ℕ → ℕ → Bool
same_lease none until = false
same_lease (some t) until = nat_eq t until

-- The row that the UPDATE leaves, of the row `e` that was read and the row `stored` that is there.
pub reclaimed : TaskExecution → TaskExecution → TaskIntent → String → ℕ → ℕ → TaskExecution
reclaimed e stored i owner lease_seconds now =
    let until = now + seconds lease_seconds in
    record stored {
      active_attempt_id =
          set_column (e.active_attempt_id == i.attempt_id) stored.active_attempt_id i.attempt_id;
      generation = e.generation + 1;
      owner_id = set_column (names e.owner_id owner) stored.owner_id (some owner);
      lease_until = set_column (same_lease e.lease_until until) stored.lease_until (some until);
      outcome = set_column (is_running e.outcome) stored.outcome running;
      updated_at = set_column (nat_eq e.updated_at now) stored.updated_at now;
    }

pub stored_row : TaskExecution → Option TaskExecution → TaskExecution
stored_row e none = e
stored_row e (some x) = x

-- The argument before the last is the execution that was read, and the last one the tables that are written.
acquire : TaskIntent → TaskIdentity → String → ℕ → ℕ → Option TaskExecution → Db → TaskClaim × Db
unfolding rejected_claim first_execution reclaimed stored_row
acquire i identity owner lease_seconds now none db =
    let e = first_execution i identity owner lease_seconds now in
    (acquired_claim e i owner first_claim, save_execution e db)
acquire i identity owner lease_seconds now (some e) db =
    let stored = stored_row e (execution_at db (execution_key e)) in
    let e' = reclaimed e stored i owner lease_seconds now in
    let mine = record e { generation = e.generation + 1 } in
    if is_succeeded e.outcome
    then (rejected_claim e owner already_succeeded, db)
    else if lease_active e now
    then (rejected_claim e owner active_lease, db)
    else (acquired_claim mine i owner lease_reclaim, save_execution e' db)

abbrev identity_key : TaskIdentity → String × String
identity_key identity = (identity.task_type, identity.logical_key)

claim_checked :
    Result TaskError (TaskIntent × TaskIdentity)
    → String
    → ℕ
    → ℕ
    → List HeldWrite
    → Db
    → Result TaskError TaskClaim × Db
unfolding acquire
claim_checked (err e) owner lease_seconds now race db = (err e, meanwhile race db)
claim_checked (ok (i, identity)) owner lease_seconds now race db =
    let old = execution_at db (identity_key identity) in
    let (c, db') = acquire i identity owner lease_seconds now old (meanwhile race db) in (ok c, db')

-- `owner` is the owner that the caller names or draws.
unfoldable pub claim_task :
    Message → String → ℕ → ℕ → List HeldWrite → Db → Result TaskError TaskClaim × Db
unfolding claim_checked
claim_task m owner lease_seconds now race db =
    claim_checked (check_delivery db m) owner lease_seconds now race db

poison_execution : Option TaskExecution → String → ℕ → Db → Db
unfolding settle
poison_execution none attempt now db = db
poison_execution (some e) attempt now db =
    if e.active_attempt_id == attempt then save_execution (settle Outcome.dead now e) db else db

poison_found : Option TaskIntent → String → String → ℕ → Db → Bool × Db
unfolding poison_execution
poison_found none attempt code now db = (false, db)
poison_found (some i) attempt code now db =
    let db' = save_intent (poison_intent i code now) db in
    (true, poison_execution (execution_at db' (intent_key i)) attempt now db')

-- `message.get("attempt_id")`, if it is a text
abbrev attempt_text : Option Value → Option String
attempt_text (some (text s)) = some s
attempt_text _ = none

poison_attempt : Option String → String → ℕ → Db → Bool × Db
unfolding poison_found
poison_attempt none code now db = (false, db)
poison_attempt (some attempt) code now db = poison_found (intent_at db attempt) attempt code now db

unfoldable pub poison_task_delivery : Message → String → ℕ → Db → Bool × Db
unfolding poison_attempt
poison_task_delivery m code now db = poison_attempt (attempt_text (get "attempt_id" m)) code now db
