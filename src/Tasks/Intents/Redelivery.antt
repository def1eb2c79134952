-- ===== src/Tasks/Intents/Redelivery.antt =====
-- When `request_task_redelivery` of task_handoff.py opens an intent again.
use crash_cap.Base.{
  if◌then◌else◌, Bool-cases, ℕ, ◌≡◌, refl, Bool, true, false, not, ◌&&◌, ◌||◌, Option, none, some,
  inl, inr, List, ok, arith, after, ◌>>◌,
}
use package.text.Mathlib.TextEquality.{eq_iff}
use crash_cap.Tasks.Message.{Message, TaskIdentity, validate_task_message, task_identity}
use crash_cap.Tasks.Rows.{
  Db, TaskIntent, IntentState, TaskExecution, intent_key, logical_intent, execution_at, intent_at,
  save_intent, is_pending, is_publishing, is_running, is_succeeded,
}
use crash_cap.Tasks.Rows.Views.{intent_at-save_intent}
use crash_cap.Tasks.Intents.{
  RedeliveryDecision, reopen, redeliver, redeliver_identified, redeliver_known,
  request_task_redelivery,
}

-- The work is done, or a worker holds an unexpired lease on it.
abbrev pub work_is_live : Option TaskExecution → ℕ → Bool
work_is_live none now = false
work_is_live (some e) now =
    is_succeeded e.outcome || (is_running e.outcome && after e.lease_until now)

-- The delivery is still to come, or a relay with an unexpired lease is making it.
abbrev pub delivery_is_live : TaskIntent → ℕ → Bool
delivery_is_live i now =
    is_pending i.state || (is_publishing i.state && after i.relay_lease_until now)

redeliver-exact :
    (i : TaskIntent) (now : ℕ) (db : Db)
    → let (d, db') = redeliver i now db in
      let live = work_is_live (execution_at db (intent_key i)) now || delivery_is_live i now in
      (d.message ≡ i.message)
      × (d.reopened ≡ not live)
      × ((live ≡ true) → db' ≡ db)
      × ((live ≡ false) → db' ≡ save_intent (reopen i now) db)
unfolding redeliver
redeliver-exact i now db = ground arith

-- A redelivery of a known task returns the durable message. It opens the intent again exactly if
-- neither the work nor the delivery is live, and otherwise writes nothing; an intent that it opens
-- is pending and due at once, with no relay in charge and no trace of a quarantine.
pub request_task_redelivery-exact :
    (m : Message) (race : List TaskIntent) (requested now : ℕ) (db : Db) (identity : TaskIdentity)
    (i : TaskIntent)
    → (validate_task_message m >> task_identity m none) ≡ ok identity
    → logical_intent db (identity.task_type, identity.logical_key) ≡ some i
    → let out = request_task_redelivery m race requested now db in
      let live =
        work_is_live (execution_at db (intent_key i)) requested || delivery_is_live i requested in
      (d : RedeliveryDecision) × (out.0 ≡ ok d)
      × (d.message ≡ i.message)
      × (d.reopened ≡ not live)
      × (if live
          then (out.1 ≡ db)
          else (intent_at out.1 i.attempt_id
              ≡ some (record i {
                state = IntentState.pending;
                due_at = requested;
                relay_owner = none;
                relay_lease_until = none;
                dead_at = none;
                last_error_code = none;
              })))
unfolding request_task_redelivery reopen
request_task_redelivery-exact m race requested now db identity i e f =
    rw (e, redeliver_identified) (rw (f, redeliver_known) (_, refl, exact.0, exact.1, by_liveness))
  where
    live : Bool
    live = work_is_live (execution_at db (intent_key i)) requested || delivery_is_live i requested

    exact :
        let (d, db') = redeliver i requested db in
        (d.message ≡ i.message)
        × (d.reopened ≡ not live)
        × ((live ≡ true) → db' ≡ db)
        × ((live ≡ false) → db' ≡ save_intent (reopen i requested) db)
    exact = redeliver-exact i requested db

    opened :
        intent_at (save_intent (reopen i requested) db) i.attempt_id ≡ some (reopen i requested)
    opened = rw intent_at-save_intent (rw ((eq_iff i.attempt_id i.attempt_id).1 refl))

    by_liveness :
        if live
        then ((redeliver i requested db).1 ≡ db)
        else (intent_at (redeliver i requested db).1 i.attempt_id ≡ some (reopen i requested))
    by_liveness = elim (Bool-cases live) [
      | inl t ↦ rw t (exact.2 t)
      | inr f' ↦ rw f' (rw (exact.3 f') opened)
    ]
