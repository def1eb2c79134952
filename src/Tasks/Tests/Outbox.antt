-- ===== src/Tasks/Tests/Outbox.antt =====
-- Instances of the theorems about intents and the relay of task_handoff.py.
use crash_cap.Base.{◌≡◌, refl, true, false, ◌⊎◌, some, none, [], ◌∷◌, ok, ◌>>◌}
use crash_cap.Base.Sorting.{sort_by}
use crash_cap.Base.Table.{row_at}
use crash_cap.Tasks.Message.{get, field, validate_task_message, task_identity, same_payload}
use crash_cap.Tasks.Rows.{
  Db, TaskIntent, IntentState, RelayClaim, intent_at, execution_at, logical_intent,
  assert_compatible, assert_intent_envelope,
}
use crash_cap.Tasks.Intents.{
  RedeliveryDecision, create_task_intent, check_message, staged, request_task_redelivery,
}
use crash_cap.Tasks.Intents.Unique.{create_task_intent-Found}
use crash_cap.Tasks.Intents.Redelivery.{request_task_redelivery-exact}
use crash_cap.Tasks.Relay.{claim_relay_intent, acknowledge_relay_publish, check_intent}
use crash_cap.Tasks.Relay.Fence.{acknowledge, reject, report, report-closes}
use crash_cap.Tasks.Tests.{message, identity, intent, empty, with_intent, stages}

checked : check_message message none ≡ ok (identity, "att_1", "1.0")
unfolding check_message validate_task_message task_identity field get
checked = refl

identified : (validate_task_message message >> task_identity message none) ≡ ok identity
unfolding validate_task_message task_identity field get
identified = refl

first_staging : (create_task_intent message (staged none) [] 5 empty).0 ≡ ok intent
first_staging = rw stages

at_logical : logical_intent with_intent ("verify_upload", "upl_1") ≡ some intent
unfolding logical_intent row_at
at_logical = refl

create_task_intent-Found_example :
    (logical_intent
        (create_task_intent message (staged none) [] 5 empty).1
        ("verify_upload", "upl_1")
      ≡ some intent)
    × ((intent.message ≡ message) ⊎ (same_payload intent.message message ≡ true))
create_task_intent-Found_example =
    create_task_intent-Found message (staged none) [] 5 empty identity "att_1" "1.0" intent checked
      first_staging

request_task_redelivery-exact_example :
    (d : RedeliveryDecision) × ((request_task_redelivery message [] 9 9 with_intent).0 ≡ ok d)
    × (d.message ≡ message)
    × (d.reopened ≡ false)
    × ((request_task_redelivery message [] 9 9 with_intent).1 ≡ with_intent)
unfolding execution_at row_at
request_task_redelivery-exact_example =
    request_task_redelivery-exact message [] 9 9 with_intent identity intent identified at_logical

abbrev relay_1 : RelayClaim
relay_1 = record { attempt_id = "att_1"; generation = 1; owner_id = "r1"; message = message }

relayed : (claim_relay_intent (λ i. false) "r1" 30 9 with_intent).0 ≡ some relay_1
unfolding claim_relay_intent sort_by check_intent validate_task_message task_identity field get
    assert_compatible same_payload assert_intent_envelope
relayed = refl

intent_found : intent_at with_intent "att_1" ≡ some intent
unfolding intent_at row_at
intent_found = refl

abbrev publishing_intent : TaskIntent
publishing_intent = record intent {
  state = IntentState.publishing;
  relay_owner = some "r1";
  relay_generation = 1;
  relay_lease_until = some 30;
}

abbrev in_flight : Db
in_flight = record { intents = publishing_intent ∷ []; executions = [] }

reported : (report (acknowledge 12) relay_1 in_flight).0 ≡ true
unfolding report acknowledge_relay_publish intent_at row_at
reported = refl

report-closes_example :
    report (reject "TRANSIENT" false 1 300 13) relay_1 (report (acknowledge 12) relay_1 in_flight).1
    ≡ (false, (report (acknowledge 12) relay_1 in_flight).1)
report-closes_example =
    report-closes (acknowledge 12) (reject "TRANSIENT" false 1 300 13) relay_1 relay_1 in_flight
      reported refl
