-- ===== src/Tasks/Claims/Quarantine.antt =====
-- `poison_task_delivery` of task_handoff.py: the quarantine of a delivered message.
use mathlib.Core.Path.{subst}
use crash_cap.Base.{
  ℕ, String, ◌≡◌, sym, true, false, inl, inr, Bool-cases, Option, none, some, arith, ◌∙◌, refl,
}
use crash_cap.Base.Keys.{◌==◌, text_keys, pair_keys}
use package.text.Mathlib.TextEquality.{eq_iff}
use crash_cap.Tasks.Message.{Message, text, get}
use crash_cap.Tasks.Rows.{
  Db, TaskIntent, TaskExecution, Outcome, intent_key, intent_at, execution_key, execution_at,
  save_intent, poison_intent, save_execution, TaskClaim, claim_key,
}
use crash_cap.Tasks.Rows.Views.{
  execution_at-save_self, execution_key-execution_at, intent_at-save_intent,
  intent_at-save_execution, attempt_id-intent_at,
}
use crash_cap.Tasks.Claims.{
  poison_attempt, poison_execution, poison_found, settle, poison_task_delivery, holds,
  claim_is_current, heartbeat_claim, finish_claim,
}
use crash_cap.Tasks.Claims.Writes.{current-refused}

poison_execution-intent_at :
    (o : Option TaskExecution) (attempt : String) (now : ℕ) (db : Db) (a : String)
    → intent_at (poison_execution o attempt now db) a ≡ intent_at db a
unfolding poison_execution
poison_execution-intent_at none attempt now db a = refl
poison_execution-intent_at (some e) attempt now db a =
    ground (arith, intent_at-save_execution (settle Outcome.dead now e) a db)

poison_execution-active :
    (e : TaskExecution) (attempt : String) (now : ℕ) (db : Db)
    → e.active_attempt_id ≡ attempt
    → execution_at (poison_execution (some e) attempt now db) (execution_key e)
      ≡ some (settle Outcome.dead now e)
unfolding poison_execution settle
poison_execution-active e attempt now db h =
    rw ((eq_iff e.active_attempt_id attempt).1 h)
      (execution_at-save_self (settle Outcome.dead now e) db)

-- No claim of the attempt holds the execution that the quarantine leaves.
poison_execution-holds :
    (o : Option TaskExecution) (key : String × String) (attempt : String) (now : ℕ) (db : Db)
    (c : TaskClaim)
    → execution_at db key ≡ o
    → c.attempt_id ≡ attempt
    → holds (execution_at (poison_execution o attempt now db) key) c ≡ false
unfolding poison_execution settle
poison_execution-holds none key attempt now db c at a = rw at refl
poison_execution-holds (some e) key attempt now db c at a =
    elim (Bool-cases (e.active_attempt_id == attempt)) [
      | inl own ↦ rw own (
          rw
            (subst
              (λ k.
                execution_at (save_execution (settle Outcome.dead now e) db) k
                ≡ some (settle Outcome.dead now e))
              (execution_key-execution_at key db at)
              (execution_at-save_self (settle Outcome.dead now e) db))
            (ground arith))
      | inr other ↦
          rw (other, at)
            (ground (arith, subst (λ x. (e.active_attempt_id == x) ≡ false) (sym a) other))
    ]

module _ (m : Message) (code attempt : String) (now : ℕ) (db : Db) (i : TaskIntent)
    (names_attempt : get "attempt_id" m ≡ some (text attempt))
    (known_intent : intent_at db attempt ≡ some i) where
  -- The quarantine of a delivery whose intent is known reports success and leaves the intent dead,
  -- with no relay owner and no relay lease.
  pub poison_task_delivery-intent :
      ((poison_task_delivery m code now db).0 ≡ true)
      × (intent_at (poison_task_delivery m code now db).1 attempt ≡ some (poison_intent i code now))
  unfolding poison_task_delivery poison_intent
  poison_task_delivery-intent =
      rw (names_attempt, poison_attempt) (rw (known_intent, poison_found) (refl, found))
    where
      i' : TaskIntent
      i' = poison_intent i code now

      db' : Db
      db' = save_intent i' db

      found :
          intent_at (poison_execution (execution_at db' (intent_key i')) attempt now db') attempt
          ≡ some i'
      found =
          poison_execution-intent_at (execution_at db' (intent_key i')) attempt now db' attempt
          ∙ rw intent_at-save_intent
              (rw ((eq_iff i.attempt_id attempt).1 (attempt_id-intent_at attempt db known_intent)))

  poison_task_delivery-current :
      (c : TaskClaim)
      → c.attempt_id ≡ attempt
      → claim_key c ≡ intent_key i
      → claim_is_current (poison_task_delivery m code now db).1 c ≡ false
  unfolding poison_task_delivery claim_is_current
  poison_task_delivery-current c a k =
      rw (names_attempt, poison_attempt)
        (rw (known_intent, poison_found)
          (rw k (
            poison_execution-holds
              (execution_at (save_intent (poison_intent i code now) db) (intent_key i))
              (intent_key i) attempt now (save_intent (poison_intent i code now) db) c refl a)))

  -- The quarantine of a delivery whose intent is known fences every claim of its attempt on its task,
  -- whichever execution there is and whatever attempt is active on it: the claim is not current
  -- afterwards, and its heartbeats and its outcome are refused and write nothing.
  pub poison_task_delivery-fences :
      (c : TaskClaim)
      → c.attempt_id ≡ attempt
      → claim_key c ≡ intent_key i
      → let late = (poison_task_delivery m code now db).1 in
        (claim_is_current late c ≡ false)
        × ((lease t : ℕ) → heartbeat_claim c lease t late ≡ (false, late))
        × ((outcome : Outcome) (t : ℕ) → finish_claim c outcome t late ≡ (false, late))
  poison_task_delivery-fences c a k =
      let late = (poison_task_delivery m code now db).1 in
      let stale = poison_task_delivery-current c a k in
      let refused = current-refused late c stale in (stale, refused.0, refused.1)
