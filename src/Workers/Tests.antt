-- ===== src/Workers/Tests.antt =====
-- A relay and a renewed lease at a concrete task, and instances of the theorems about the workers.
use crash_cap.Base.{
  ◌+◌, ◌≡◌, refl, ◌⊎◌, true, false, Option, some, List, [], ◌∷◌, map, arith, seconds,
}
use crash_cap.Base.Sorting.{sort_by}
use crash_cap.Base.Table.{row_at, save}
use crash_cap.Tasks.Message.{
  Message, get, field, validate_task_message, satisfies_contract, task_identity, same_payload,
}
use crash_cap.Tasks.Message.Shapes.{Shaped}
use crash_cap.Tasks.Rows.{
  Db, RelayClaim, succeeded, intent_at, execution_at, save_execution, assert_compatible,
  assert_intent_envelope,
}
use crash_cap.Tasks.Relay.{claim_relay_intent, check_intent}
use crash_cap.Tasks.Claims.{check_delivery, claim_task, meanwhile, beats, ends}
use crash_cap.Tasks.Claims.Leased.{Leased}
use crash_cap.Tasks.Tests.{message, intent, with_intent, first, second}
use crash_cap.Workers.Publish.{Raised, Actor, api_error, publish_task}
use crash_cap.Workers.Publish.Contract.{actor_for, publish_task-contract}
use crash_cap.Workers.Outbox.{RelaySettings, World, relay_once}
use crash_cap.Workers.Outbox.Handled.{Handled, relay_once-Handled}
use crash_cap.Workers.Leases.{renew}
use crash_cap.Workers.Leases.Kept.{Contested, round_of, last_round, renew-Leased}

abbrev refusing : Actor → Message → Option Raised
refusing actor m =
    some (record { class_name = "ConnectionError"; classes = "ConnectionError" ∷ "OSError" ∷ [] })

publish_task-contract_example :
    ((satisfies_contract message ≡ true)
      × (s : Shaped message) × (publish_task refusing message
          ≡ refusing (actor_for s.shape) message))
    ⊎ ((satisfies_contract message ≡ false) × (publish_task refusing message ≡ some api_error))
publish_task-contract_example = publish_task-contract refusing message

abbrev settings : RelaySettings
settings = record {
  relay_lease_seconds = 30;
  relay_backoff_base_seconds = 1;
  relay_backoff_max_seconds = 300;
}

abbrev world : World
world = record {
  locked = λ i. false;
  claimed_at = 9;
  broker = refusing;
  meanwhile = λ db. db;
  dies = false;
  reported_at = 12;
}

abbrev relay_1 : RelayClaim
relay_1 = record { attempt_id = "att_1"; generation = 1; owner_id = "r1"; message = message }

relayed : (claim_relay_intent (λ i. false) "r1" 30 9 with_intent).0 ≡ some relay_1
unfolding claim_relay_intent sort_by check_intent validate_task_message task_identity field get
    assert_compatible same_payload assert_intent_envelope
relayed = refl

intent_found : intent_at with_intent "att_1" ≡ some intent
unfolding intent_at row_at
intent_found = refl

relay_once-Handled_example :
    (m : Shaped message) × Handled settings world relay_1
      (refusing (actor_for m.shape) message)
      (relay_once (λ s. s) settings world "r1" with_intent)
relay_once-Handled_example =
    relay_once-Handled (λ s. s) settings world "r1" with_intent relay_1 (intent_found, tt) relayed
      refl

abbrev claimed : Db
claimed = (claim_task message "w1" 60 10 [] with_intent).1

leased : Leased first (10 + seconds 60) claimed
unfolding claim_task meanwhile check_delivery validate_task_message task_identity field get
    intent_at row_at assert_compatible same_payload execution_at save_execution save
leased = record { row = _; found = refl; matching = refl; running = refl; lease = refl }

-- Another worker tries to take the task over before the second round.
abbrev rounds : List Contested
rounds =
    record { attempts = []; now = seconds 20 }
    ∷ record {
      attempts =
          record {
            message = message;
            owner = "w2";
            lease = 60;
            now = seconds 58;
            race = beats second 60 (seconds 58) ∷ ends second succeeded (seconds 58) ∷ [];
          }
          ∷ [];
      now = seconds 59;
    }
    ∷ []

renew-Leased_example :
    ((renew 60 first (map round_of rounds) claimed).0 ≡ true)
    × Leased first
        (last_round 10 rounds + seconds 60)
        (renew 60 first (map round_of rounds) claimed).1
renew-Leased_example =
    renew-Leased first 60 10 rounds claimed (omega arith) leased
      (omega arith, tt, (omega arith, ((omega arith, (refl, (refl, tt))), tt), tt))
