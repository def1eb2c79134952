-- ===== src/Tasks/Rows/Views.antt =====
-- What the tables of task_handoff.py hold after a row is written.
use crash_cap.Base.{String, none, ◌≡◌, refl, ap, some, arith, if◌then◌else◌}
use crash_cap.Base.Keys.{◌==◌, same_pair_iff, text_keys, pair_keys}
use crash_cap.Base.Table
use crash_cap.Tasks.Rows.{
  Db, TaskIntent, TaskExecution, attempt_key, execution_key, execution_at, intent_at,
  save_execution, save_intent, intent_key, logical_intent,
}

pub execution_at-save_execution :
    (e : TaskExecution) (k : String × String) (db : Db)
    → execution_at (save_execution e db) k
      ≡ (if execution_key e == k then some e else execution_at db k)
unfolding execution_at save_execution
execution_at-save_execution e k db = Table.row_at-save execution_key e k db.executions

pub execution_at-save_intent :
    (i : TaskIntent) (k : String × String) (db : Db)
    → execution_at (save_intent i db) k ≡ execution_at db k
unfolding execution_at save_intent
execution_at-save_intent i k db = refl

pub intent_at-save_intent :
    (i : TaskIntent) (a : String) (db : Db)
    → intent_at (save_intent i db) a ≡ (if i.attempt_id == a then some i else intent_at db a)
unfolding intent_at save_intent
intent_at-save_intent i a db = Table.row_at-save attempt_key i a db.intents

pub intent_at-save_execution :
    (e : TaskExecution) (a : String) (db : Db) → intent_at (save_execution e db) a ≡ intent_at db a
unfolding intent_at save_execution
intent_at-save_execution e a db = refl

-- What is found under a key carries that key.
pub execution_key-execution_at :
    (k : String × String) (db : Db) {e : TaskExecution}
    → execution_at db k ≡ some e
    → execution_key e ≡ k
unfolding execution_at
execution_key-execution_at k db {e} h = Table.key-row_at execution_key k db.executions h

pub attempt_id-intent_at :
    (a : String) (db : Db) {i : TaskIntent} → intent_at db a ≡ some i → i.attempt_id ≡ a
unfolding intent_at
attempt_id-intent_at a db {i} h = Table.key-row_at attempt_key a db.intents h

-- A write under its own key is what the key shows next.
pub execution_at-save_self :
    (e : TaskExecution) (db : Db) → execution_at (save_execution e db) (execution_key e) ≡ some e
execution_at-save_self e db =
    rw execution_at-save_execution
      (ground (arith, same_pair_iff (execution_key e) (execution_key e)))

-- Both depend on the executions alone.
pub execution_at_of_executions :
    (db db' : Db) (k : String × String)
    → db'.executions ≡ db.executions
    → execution_at db' k ≡ execution_at db k
unfolding execution_at
execution_at_of_executions db db' k e = ap (Table.row_at execution_key k) e

pub save_execution_of_executions :
    (x : TaskExecution) (db db' : Db)
    → db'.executions ≡ db.executions
    → (save_execution x db').executions ≡ (save_execution x db).executions
unfolding save_execution
save_execution_of_executions x db db' e = ap (Table.save execution_key x) e

-- A new intent is found under its logical key.
pub logical_intent-save_new :
    (i : TaskIntent) (db : Db)
    → (Table.row_at attempt_key i.attempt_id db.intents ≡ none)
      × (Table.row_at intent_key (intent_key i) db.intents ≡ none)
    → logical_intent (save_intent i db) (intent_key i) ≡ some i
unfolding logical_intent save_intent
logical_intent-save_new i db h = Table.row_at-save_new attempt_key intent_key i db.intents h.0 h.1
