-- ===== src/Tasks/Intents/Keeps.antt =====
-- The intent side of task_handoff.py writes no execution.
use crash_cap.Base.{
  ℕ, ◌≡◌, refl, Option, none, some, List, Result, ok, err, arith, Bool-cases, inl, inr, ◌>>◌,
}
use crash_cap.Tasks.Message.{Message, TaskError, TaskIdentity, validate_task_message, task_identity}
use crash_cap.Tasks.Rows.{Db, TaskIntent, save_intent, logical_intent}
use crash_cap.Tasks.Intents.{
  IntentOptions, create_task_intent, insert_intent, admits, request_task_redelivery, redeliver,
  due_now, Creation, created, redeliver_known, redeliver_identified,
}

insert_intent-executions :
    (row : TaskIntent) (m : Message) (identity : TaskIdentity) (db : Db)
    → (insert_intent row m identity db).1.executions ≡ db.executions
unfolding insert_intent save_intent
insert_intent-executions row m identity db = elim (Bool-cases (admits row db.intents)) [
  | inl e ↦ rw e
  | inr e ↦ rw e
]

pub create_task_intent-executions :
    (m : Message) (options : IntentOptions) (race : List TaskIntent) (now : ℕ) (db : Db)
    → (create_task_intent m options race now db).1.executions ≡ db.executions
unfolding create_task_intent save_intent
create_task_intent-executions m options race now db = ground arith

redeliver-executions :
    (i : TaskIntent) (now : ℕ) (db : Db) → (redeliver i now db).1.executions ≡ db.executions
unfolding redeliver save_intent
redeliver-executions i now db = ground arith

created-executions :
    (out : Creation) (db : Db)
    → out.1.executions ≡ db.executions
    → (created out).1.executions ≡ db.executions
created-executions (ok i, db') db h = h
created-executions (err e, db') db h = h

redeliver_identified-executions :
    (r : Result TaskError TaskIdentity) (m : Message) (race : List TaskIntent) (requested now : ℕ)
    (db : Db)
    → (redeliver_identified r m race requested now db).1.executions ≡ db.executions
unfolding redeliver_identified
redeliver_identified-executions (err e) m race requested now db = refl
redeliver_identified-executions (ok identity) m race requested now db =
    go (logical_intent db (identity.task_type, identity.logical_key))
  where
    go :
        (o : Option TaskIntent)
        → (redeliver_known o m race requested now db).1.executions ≡ db.executions
    go none =
        created-executions (create_task_intent m (due_now requested) race now db) db
          (create_task_intent-executions m (due_now requested) race now db)
    go (some i) = redeliver-executions i requested db

pub request_task_redelivery-executions :
    (m : Message) (race : List TaskIntent) (requested now : ℕ) (db : Db)
    → (request_task_redelivery m race requested now db).1.executions ≡ db.executions
unfolding request_task_redelivery
request_task_redelivery-executions m race requested now db =
    redeliver_identified-executions (validate_task_message m >> task_identity m none) m race
      requested now db
