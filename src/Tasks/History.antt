-- ===== src/Tasks/History.antt =====
-- Sequences of calls of task_handoff.py, each in a transaction of its own, in the order in which the
-- transactions commit; those that commit within a call of `claim_task` are an argument of it.
pub mod Fencing
pub mod Success
pub mod Raced
use crash_cap.Base.{ℕ, String, Bool, Option, List, [], ◌∷◌}
use crash_cap.Tasks.Message.{Message}
use crash_cap.Tasks.Rows.{Db, TaskIntent, Outcome, TaskClaim, RelayClaim}
use crash_cap.Tasks.Intents.{IntentOptions, create_task_intent, request_task_redelivery}
use crash_cap.Tasks.Claims.{
  HeldWrite, claim_task, heartbeat_claim, finish_claim, poison_task_delivery,
}
use crash_cap.Tasks.Relay.{claim_relay_intent, acknowledge_relay_publish, reject_relay_publish}

-- Claims are arguments: a worker may come back with one at any time, however old, and also with one
-- that was never granted.
pub data Call : Type 0 where
  create : Message → IntentOptions → List TaskIntent → ℕ → Call
  redeliver : Message → List TaskIntent → ℕ → ℕ → Call
  claim : Message → String → ℕ → ℕ → List HeldWrite → Call
  beat : TaskClaim → ℕ → ℕ → Call
  finish : TaskClaim → Outcome → ℕ → Call
  poison : Message → String → ℕ → Call
  relay : (TaskIntent → Bool) → String → ℕ → ℕ → Call
  acknowledge : RelayClaim → ℕ → Call
  reject : RelayClaim → String → Bool → ℕ → ℕ → ℕ → Call

unfoldable pub call : Db → Call → Db
call db (create m options race now) = (create_task_intent m options race now db).1
call db (redeliver m race requested now) = (request_task_redelivery m race requested now db).1
call db (claim m owner lease now race) = (claim_task m owner lease now race db).1
call db (beat c lease now) = (heartbeat_claim c lease now db).1
call db (finish c outcome now) = (finish_claim c outcome now db).1
call db (poison m code now) = (poison_task_delivery m code now db).1
call db (relay locked owner lease now) = (claim_relay_intent locked owner lease now db).1
call db (acknowledge c now) = (acknowledge_relay_publish c now db).1
call db (reject c code permanent base limit now) =
    (reject_relay_publish c code permanent base limit now db).1

unfoldable pub calls : Db → List Call → Db
calls db [] = db
calls db (x ∷ xs) = calls (call db x) xs
