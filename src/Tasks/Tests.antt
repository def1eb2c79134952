-- ===== src/Tasks/Tests.antt =====
-- A task from its staging to its success, and instances of the theorems about task_handoff.py.
mod Outbox
use crash_cap.Base.{
  ℕ, ◌+◌, ◌<◌, ◌≤◌, min, String, Bool, true, false, ◌≡◌, refl, ◌⊎◌, Option, some, none, List, [],
  ◌∷◌, Result, ok, err, arith, ◌>>=◌,
}
use crash_cap.Base.Table.{row_at, save}
use crash_cap.Tasks.Message.{
  Message, Value, text, number, get, field, TaskIdentity, validate_task_message, satisfies_contract,
  task_identity, same_payload,
}
use crash_cap.Tasks.Rows.{
  Db, TaskIntent, IntentState, TaskExecution, Outcome, succeeded, running, TaskClaim, first_claim,
  lease_reclaim, RelayClaim, execution_at, intent_at, logical_intent, save_intent, save_execution,
  assert_compatible, claim_key,
}
use crash_cap.Tasks.Intents.{create_task_intent, check_message, staged, request_task_redelivery}
use crash_cap.Tasks.Claims.{
  check_delivery, claim_task, meanwhile, HeldWrite, ends, write_of, claim_is_current,
  heartbeat_claim, finish_claim, poison_task_delivery,
}
use crash_cap.Tasks.Claims.Grants.{has_succeeded}
use crash_cap.Tasks.Claims.Quarantine.{poison_task_delivery-fences}
use crash_cap.Tasks.History.{call, calls, claim, finish, relay}
use crash_cap.Tasks.History.Fencing.{takeover_fences}
use crash_cap.Tasks.History.Success.{success_stays}
use crash_cap.Tasks.History.Raced.{claimed_success-stays}

abbrev pub message : Message
message =
    ("schema_version", text "1.0")
    ∷ ("task_type", text "verify_upload")
    ∷ ("upload_id", text "upl_1")
    ∷ ("attempt_id", text "att_1")
    ∷ ("queue", text "verify")
    ∷ []

role_message : Message
role_message =
    ("schema_version", text "1.2")
    ∷ ("task_type", text "dispatch_workspace_role")
    ∷ ("workspace_id", text "wsp_1")
    ∷ ("role_version", number 12)
    ∷ ("attempt_id", text "att_2")
    ∷ ("queue", text "ingest")
    ∷ []

role_key :
    task_identity role_message none
    ≡ ok (record {
      task_type = "dispatch_workspace_role";
      queue = "ingest";
      logical_key = "wsp_1:role:12";
      target_type = "workspace";
      target_id = "wsp_1";
    })
unfolding task_identity role_message
role_key = refl

role_valid : satisfies_contract role_message ≡ true
unfolding satisfies_contract role_message
role_valid = refl

abbrev empty : Db
empty = record { intents = []; executions = [] }

abbrev identity : TaskIdentity
identity = record {
  task_type = "verify_upload";
  queue = "verify";
  logical_key = "upl_1";
  target_type = "upload";
  target_id = "upl_1";
}

abbrev pub intent : TaskIntent
intent = record {
  attempt_id = "att_1";
  schema_version = "1.0";
  task_type = "verify_upload";
  queue = "verify";
  logical_key = "upl_1";
  target_type = "upload";
  target_id = "upl_1";
  message = message;
  request_id = none;
  state = IntentState.pending;
  due_at = 5;
  relay_owner = none;
  relay_generation = 0;
  relay_lease_until = none;
  delivery_attempts = 0;
  published_at = none;
  dead_at = none;
  last_error_code = none;
  created_at = 5;
}

abbrev pub with_intent : Db
with_intent = record { intents = intent ∷ []; executions = [] }

stages : create_task_intent message (staged none) [] 5 empty ≡ (ok intent, with_intent)
unfolding create_task_intent check_message validate_task_message task_identity field get
    logical_intent save_intent row_at save
stages = refl

abbrev pub first : TaskClaim
first = record {
  acquired = true;
  task_type = "verify_upload";
  logical_key = "upl_1";
  attempt_id = "att_1";
  generation = 1;
  owner_id = "w1";
  reason = first_claim;
}

abbrev pub second : TaskClaim
second = record first { generation = 2; owner_id = "w2"; reason = lease_reclaim }

first_granted : (claim_task message "w1" 60 10 [] with_intent).0 ≡ ok first
unfolding claim_task meanwhile check_delivery validate_task_message task_identity field get
    intent_at row_at assert_compatible same_payload execution_at
first_granted = refl

-- the lease of 60 seconds has run out
second_granted :
    (claim_task message "w2" 60 60_000_010 []
      (calls (claim_task message "w1" 60 10 [] with_intent).1 [])).0
    ≡ ok second
unfolding claim_task meanwhile check_delivery validate_task_message task_identity field get
    intent_at row_at assert_compatible same_payload execution_at save_execution save calls
second_granted = refl

abbrev taken_over : Db
taken_over =
    calls
      (claim_task message "w2" 60 60_000_010 []
        (calls (claim_task message "w1" 60 10 [] with_intent).1 [])).1
      []

takeover_fences_example :
    (first.generation < second.generation)
    × (claim_is_current taken_over first ≡ false)
    × ((l t : ℕ) → heartbeat_claim first l t taken_over ≡ (false, taken_over))
    × ((outcome : Outcome) (t : ℕ) → finish_claim first outcome t taken_over ≡ (false, taken_over))
takeover_fences_example =
    takeover_fences with_intent first second message message "w1" "w2" 60 60 10 60_000_010 [] [] []
      [] first_granted refl second_granted refl refl

abbrev won : TaskExecution
won = record {
  task_type = "verify_upload";
  logical_key = "upl_1";
  active_attempt_id = "att_1";
  generation = 1;
  owner_id = some "w1";
  lease_until = none;
  outcome = succeeded;
  updated_at = 20;
}

abbrev finished : Db
finished = record { intents = intent ∷ []; executions = won ∷ [] }

found_won : execution_at finished ("verify_upload", "upl_1") ≡ some won
unfolding execution_at row_at
found_won = refl

found_intent : intent_at finished "att_1" ≡ some intent
unfolding intent_at row_at
found_intent = refl

names_attempt : get "attempt_id" message ≡ some (text "att_1")
unfolding get
names_attempt = refl

success_stays_example :
    execution_at
      (calls finished (claim message "w2" 60 99 [] ∷ relay (λ i. false) "r" 30 99 ∷ []))
      ("verify_upload", "upl_1")
    ≡ some won
success_stays_example =
    success_stays finished (claim message "w2" 60 99 [] ∷ relay (λ i. false) "r" 30 99 ∷ [])
      ("verify_upload", "upl_1") won found_won refl (refl, (refl, tt))

abbrev started : Db
started = (claim_task message "w1" 60 10 [] with_intent).1

known_at_start : intent_at started "att_1" ≡ some intent
unfolding claim_task meanwhile check_delivery validate_task_message task_identity field get
    intent_at row_at assert_compatible same_payload execution_at save_execution save
known_at_start = refl

poison_task_delivery-fences_example :
    let late = (poison_task_delivery message "PERMANENT" 30 started).1 in
    (claim_is_current late first ≡ false)
    × ((lease t : ℕ) → heartbeat_claim first lease t late ≡ (false, late))
    × ((outcome : Outcome) (t : ℕ) → finish_claim first outcome t late ≡ (false, late))
poison_task_delivery-fences_example =
    poison_task_delivery-fences message "PERMANENT" "att_1" 30 started intent names_attempt
      known_at_start first refl refl

-- The lease of the first claim has run out, and it ends with success while the second claim is made.
abbrev late_end : List HeldWrite
late_end = ends first succeeded 60_000_010 ∷ []

ended_meanwhile :
    has_succeeded (execution_at (meanwhile late_end started) ("verify_upload", "upl_1")) ≡ true
unfolding claim_task meanwhile write_of check_delivery validate_task_message task_identity field get
    intent_at row_at assert_compatible same_payload execution_at save_execution save finish_claim
ended_meanwhile = refl

claimed_success-stays_example :
    has_succeeded (
      execution_at
        (calls
          (claim_task message "w2" 60 60_000_010 late_end started).1
          (claim message "w3" 60 60_000_020 [] ∷ []))
        ("verify_upload", "upl_1"))
    ≡ true
claimed_success-stays_example =
    claimed_success-stays started message "w2" 60 60_000_010 late_end
      (claim message "w3" 60 60_000_020 [] ∷ []) ("verify_upload", "upl_1") ended_meanwhile
      (refl, tt)

-- The claim is granted all the same, and is not current.
granted_late :
    let out = claim_task message "w2" 60 60_000_010 late_end started in
    (out.0 ≡ ok second) × (claim_is_current out.1 second ≡ false)
unfolding claim_task meanwhile write_of check_delivery validate_task_message task_identity field get
    intent_at row_at assert_compatible same_payload execution_at save_execution save finish_claim
    claim_is_current
granted_late = (refl, refl)
