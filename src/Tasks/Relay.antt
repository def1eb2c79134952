-- ===== src/Tasks/Relay.antt =====
-- The outbox relay: `claim_relay_intent`, `acknowledge_relay_publish` and `reject_relay_publish` of
-- task_handoff.py.
pub mod Backoff
pub mod Fence
pub mod Keeps
pub mod Selection
use crash_cap.Base.{
  ℕ, zero, suc, ◌+◌, ◌-◌, ◌*◌, ◌^◌, min, max, String, Bool, true, false, not, ◌&&◌, ◌||◌, Option,
  none, some, List, [], ◌∷◌, if◌then◌else◌, seconds, leb, ltb, nat_eq, take, keep_if, Result, ok,
  err, ◌>>=◌, ◌>>◌,
}
use crash_cap.Base.Sorting.{sort_by, str_lt}
use crash_cap.Tasks.Message.{TaskError, validate_task_message, task_identity}
use crash_cap.Tasks.Rows.{
  Db, TaskIntent, IntentState, RelayClaim, intent_at, save_intent, is_pending, is_publishing,
  relay_matches, assert_compatible, assert_intent_envelope, poison_intent, short_code,
}

-- `lease is None or lease <= now`
abbrev pub lapsed : Option ℕ → ℕ → Bool
lapsed none now = true
lapsed (some t) now = leb t now

-- The rows that the query of `claim_relay_intent` selects.
abbrev pub due : ℕ → TaskIntent → Bool
due now i =
    (is_pending i.state && leb i.due_at now)
    || (is_publishing i.state && lapsed i.relay_lease_until now)

-- ORDER BY due_at, created_at, attempt_id
abbrev pub relay_before : TaskIntent → TaskIntent → Bool
relay_before i j =
    ltb i.due_at j.due_at
    || (nat_eq i.due_at j.due_at
        && (ltb i.created_at j.created_at
            || (nat_eq i.created_at j.created_at && str_lt i.attempt_id j.attempt_id)))

-- `locked` holds of the rows that other transactions have locked: the query skips them.
candidates : (TaskIntent → Bool) → ℕ → List TaskIntent → List TaskIntent
unfolding sort_by
candidates locked now rows =
    take 100 (sort_by relay_before (keep_if (λ i. due now i && not (locked i)) rows))

-- The checks of the `try` block. Each exception that they raise is among those it catches.
unfoldable pub check_intent : TaskIntent → Result TaskError (Unit {0})
check_intent i = do
  validate_task_message i.message
  identity ← task_identity i.message (some i.logical_key)
  assert_compatible i i.message identity
  assert_intent_envelope i

unfoldable pub published_by : String → ℕ → ℕ → TaskIntent → TaskIntent
published_by owner lease_seconds now i = record i {
  state = IntentState.publishing;
  relay_owner = some owner;
  relay_generation = i.relay_generation + 1;
  relay_lease_until = some (now + seconds lease_seconds);
  delivery_attempts = i.delivery_attempts + 1;
  last_error_code = none;
}

poison_candidate : TaskIntent → ℕ → TaskIntent
poison_candidate i now =
    poison_intent (record i { delivery_attempts = i.delivery_attempts + 1 })
      "PERMANENT_INVALID_TASK_MESSAGE" now

relay_claim : TaskIntent → String → RelayClaim
relay_claim i owner = record {
  attempt_id = i.attempt_id;
  generation = i.relay_generation;
  owner_id = owner;
  message = i.message;
}

abbrev Relaying : Type 0
Relaying = Option RelayClaim × Db

claim_valid : TaskIntent → String → ℕ → ℕ → Db → Relaying
unfolding published_by relay_claim
claim_valid i owner lease_seconds now db =
    let i' = published_by owner lease_seconds now i in
    (some (relay_claim i' owner), save_intent i' db)

-- What the checks of a candidate decide: to go on after it, or to claim it.
after_check : Result TaskError (Unit {0}) → Relaying → Relaying → Relaying
after_check (err e) go_on claimed = go_on
after_check (ok u) go_on claimed = claimed

-- The loop: an invalid candidate is poisoned, the first valid one is claimed.
claim_first : String → ℕ → ℕ → List TaskIntent → Db → Relaying
unfolding check_intent claim_valid poison_candidate after_check
claim_first owner lease_seconds now [] db = (none, db)
claim_first owner lease_seconds now (i ∷ rest) db =
    let go_on =
      claim_first owner lease_seconds now rest (save_intent (poison_candidate i now) db) in
    after_check (check_intent i) go_on (claim_valid i owner lease_seconds now db)

unfoldable pub claim_relay_intent :
    (TaskIntent → Bool) → String → ℕ → ℕ → Db → Option RelayClaim × Db
unfolding claim_first candidates
claim_relay_intent locked owner lease_seconds now db =
    claim_first owner lease_seconds now (candidates locked now db.intents) db

-- A write under a relay claim: refused, with nothing changed, if the claim is stale.
write_relayed : (TaskIntent → TaskIntent) → Option TaskIntent → RelayClaim → Db → Bool × Db
write_relayed change none c db = (false, db)
write_relayed change (some i) c db =
    if relay_matches i c then (true, save_intent (change i) db) else (false, db)

unfoldable pub acknowledged : ℕ → TaskIntent → TaskIntent
acknowledged now i = record i {
  state = IntentState.published;
  published_at = some now;
  relay_owner = none;
  relay_lease_until = none;
  last_error_code = none;
}

unfoldable pub acknowledge_relay_publish : RelayClaim → ℕ → Db → Bool × Db
unfolding write_relayed acknowledged
acknowledge_relay_publish c now db =
    write_relayed (acknowledged now) (intent_at db c.attempt_id) c db

-- `min(max(attempts - 1, 0), 16)`; `-` on ℕ stops at 0 as the `max` does
abbrev pub exponent : ℕ → ℕ
exponent attempts = min (attempts - 1) 16

unfoldable pub backoff_delay : ℕ → ℕ → ℕ → ℕ
backoff_delay base limit attempts = min limit (base * 2 ^ exponent attempts)

unfoldable pub retried : String → ℕ → ℕ → ℕ → TaskIntent → TaskIntent
unfolding backoff_delay
retried error_code base limit now i = record i {
  state = IntentState.pending;
  due_at = now + seconds (backoff_delay base limit i.delivery_attempts);
  relay_owner = none;
  relay_lease_until = none;
  last_error_code = some (short_code error_code);
}

unfoldable pub rejected_row : Bool → String → ℕ → ℕ → ℕ → TaskIntent → TaskIntent
unfolding retried
rejected_row permanent error_code base limit now i =
    if permanent then poison_intent i error_code now else retried error_code base limit now i

unfoldable pub reject_relay_publish : RelayClaim → String → Bool → ℕ → ℕ → ℕ → Db → Bool × Db
unfolding write_relayed rejected_row
reject_relay_publish c error_code permanent base limit now db =
    write_relayed (rejected_row permanent error_code base limit now) (intent_at db c.attempt_id) c
      db
