-- ===== src/Tasks/Relay/Keeps.antt =====
-- The relay of task_handoff.py writes no execution.
use crash_cap.Base.{ℕ, String, Bool, ◌≡◌, refl, Option, none, some, List, [], ◌∷◌, arith}
use crash_cap.Tasks.Rows.{Db, TaskIntent, RelayClaim, save_intent, intent_at}
use crash_cap.Tasks.Relay.{
  poison_candidate, claim_first, candidates, claim_relay_intent, acknowledge_relay_publish,
  reject_relay_publish, write_relayed,
}

claim_first-executions :
    (owner : String) (lease now : ℕ) (rows : List TaskIntent) (db : Db)
    → (claim_first owner lease now rows db).1.executions ≡ db.executions
unfolding claim_first save_intent
claim_first-executions owner lease now [] db = refl
claim_first-executions owner lease now (i ∷ rest) db =
    ground
      (arith, claim_first-executions owner lease now rest (save_intent (poison_candidate i now) db))

pub claim_relay_intent-executions :
    (locked : TaskIntent → Bool) (owner : String) (lease now : ℕ) (db : Db)
    → (claim_relay_intent locked owner lease now db).1.executions ≡ db.executions
unfolding claim_relay_intent
claim_relay_intent-executions locked owner lease now db =
    claim_first-executions owner lease now (candidates locked now db.intents) db

write_relayed-executions :
    (change : TaskIntent → TaskIntent) (o : Option TaskIntent) (c : RelayClaim) (db : Db)
    → (write_relayed change o c db).1.executions ≡ db.executions
unfolding write_relayed save_intent
write_relayed-executions change none c db = refl
write_relayed-executions change (some i) c db = ground arith

pub acknowledge_relay_publish-executions :
    (c : RelayClaim) (now : ℕ) (db : Db)
    → (acknowledge_relay_publish c now db).1.executions ≡ db.executions
unfolding acknowledge_relay_publish
acknowledge_relay_publish-executions c now db =
    write_relayed-executions _ (intent_at db c.attempt_id) c db

pub reject_relay_publish-executions :
    (c : RelayClaim) (code : String) (permanent : Bool) (base limit now : ℕ) (db : Db)
    → (reject_relay_publish c code permanent base limit now db).1.executions ≡ db.executions
unfolding reject_relay_publish
reject_relay_publish-executions c code permanent base limit now db =
    write_relayed-executions _ (intent_at db c.attempt_id) c db
