-- ===== src/Tasks/Claims/Writes.antt =====
-- What a heartbeat, the end of a claim and the quarantine of a delivery write (task_handoff.py).
use crash_cap.Base.{
  ℕ, String, Bool, true, false, ◌&&◌, ◌≡◌, ◌<◌, refl, Option, none, some, ◌⊎◌, inl, inr, arith,
  Bool-cases, sym, ◌∙◌,
}
use crash_cap.Base.Keys.{◌==◌, text_keys, pair_keys}
use crash_cap.Tasks.Message.{Message, get}
use crash_cap.Tasks.Rows.{
  Db, TaskExecution, TaskIntent, Outcome, TaskClaim, claim_key, intent_key, execution_key,
  execution_at, save_execution, save_intent, intent_at, is_running, matches, poison_intent,
}
use crash_cap.Tasks.Rows.Views.{
  execution_key-execution_at, execution_at_of_executions, save_execution_of_executions,
}
use crash_cap.Tasks.Claims.Grants.{generation_of, generation_at}
use crash_cap.Tasks.Claims.{
  HeldWrite, beats, ends, write_of, holds, claim_is_current, write_held, beat, settle,
  heartbeat_claim, finish_claim, poison_execution, poison_found, attempt_text, poison_attempt,
  poison_task_delivery,
}

-- A row is written that keeps the identity and the generation of the row it replaces, or no
-- execution is written. `checked` says that a row that does not run is left alone.
pub record Kept (checked : Bool) (db db' : Db) : Type 0 where
  pub old : TaskExecution
  pub new : TaskExecution
  pub found : execution_at db (execution_key old) ≡ some old
  pub written : db'.executions ≡ (save_execution new db).executions
  pub same_key : execution_key new ≡ execution_key old
  pub same_generation : new.generation ≡ old.generation
  pub same_attempt : new.active_attempt_id ≡ old.active_attempt_id
  pub old_running : checked ≡ true → is_running old.outcome ≡ true

abbrev pub KeepsGeneration : Bool → Db → Db → Type 0
KeepsGeneration checked db db' = Kept checked db db' ⊎ (db'.executions ≡ db.executions)

write_held-Kept :
    (change : TaskExecution → TaskExecution) (c : TaskClaim) (db : Db)
    → ((e : TaskExecution)
        → (execution_key (change e) ≡ execution_key e)
          × ((change e).generation ≡ e.generation)
          × ((change e).active_attempt_id ≡ e.active_attempt_id))
    → (o : Option TaskExecution) → execution_at db (claim_key c) ≡ o
    → KeepsGeneration true db (write_held change o c db).1
unfolding write_held
write_held-Kept change c db same none h = inr refl
write_held-Kept change c db same (some e) h =
    elim (Bool-cases (matches e c && is_running e.outcome)) [
      | inl t ↦ rw t (
          inl (record {
            old = e;
            new = change e;
            found = rw (execution_key-execution_at (claim_key c) db h) h;
            written = refl;
            same_key = (same e).0;
            same_generation = (same e).1;
            same_attempt = (same e).2;
            old_running = λ c1. ground arith;
          }))
      | inr f ↦ rw f (inr refl)
    ]

pub heartbeat_claim-Kept :
    (c : TaskClaim) (lease now : ℕ) (db : Db)
    → KeepsGeneration true db (heartbeat_claim c lease now db).1
unfolding heartbeat_claim
heartbeat_claim-Kept c lease now db =
    write_held-Kept (beat lease now) c db (λ e. (refl, refl, refl)) (execution_at db (claim_key c))
      refl

pub finish_claim-Kept :
    (c : TaskClaim) (outcome : Outcome) (now : ℕ) (db : Db)
    → KeepsGeneration true db (finish_claim c outcome now db).1
unfolding finish_claim
finish_claim-Kept c outcome now db =
    write_held-Kept (settle outcome now) c db (λ e. (refl, refl, refl))
      (execution_at db (claim_key c)) refl

pub write_of-Kept : (w : HeldWrite) (db : Db) → KeepsGeneration true db (write_of w db)
unfolding write_of
write_of-Kept (beats c lease now) db = heartbeat_claim-Kept c lease now db
write_of-Kept (ends c outcome now) db = finish_claim-Kept c outcome now db

poison_execution-Kept :
    (attempt : String) (now : ℕ) (db db' : Db)
    → db'.executions ≡ db.executions
    → (key : String × String) (o : Option TaskExecution) → execution_at db' key ≡ o
    → KeepsGeneration false db (poison_execution o attempt now db')
unfolding poison_execution
poison_execution-Kept attempt now db db' e key none h = inr e
poison_execution-Kept attempt now db db' e key (some x) h =
    elim (Bool-cases (x.active_attempt_id == attempt)) [
      | inl t ↦ rw t (
          inl (record {
            old = x;
            new = settle Outcome.dead now x;
            found =
                sym (execution_at_of_executions db db' (execution_key x) e)
                ∙ rw (execution_key-execution_at key db' h) h;
            written = save_execution_of_executions (settle Outcome.dead now x) db db' e;
            same_key = refl;
            same_generation = refl;
            same_attempt = refl;
            old_running = λ c1. cc;
          }))
      | inr f ↦ rw f (inr e)
    ]

poison_found-Kept :
    (o : Option TaskIntent) (attempt code : String) (now : ℕ) (db : Db)
    → KeepsGeneration false db (poison_found o attempt code now db).1
unfolding poison_found save_intent
poison_found-Kept none attempt code now db = inr refl
poison_found-Kept (some i) attempt code now db =
    let db' = save_intent (poison_intent i code now) db in
    poison_execution-Kept attempt now db db' refl (intent_key i) (execution_at db' (intent_key i))
      refl

pub poison_task_delivery-Kept :
    (m : Message) (code : String) (now : ℕ) (db : Db)
    → KeepsGeneration false db (poison_task_delivery m code now db).1
unfolding poison_task_delivery
poison_task_delivery-Kept m code now db = go (attempt_text (get "attempt_id" m))
  where
    go : (o : Option String) → KeepsGeneration false db (poison_attempt o code now db).1
    go none = inr refl
    go (some attempt) = poison_found-Kept (intent_at db attempt) attempt code now db

-- A claim of a generation that the row has passed holds nothing.
stale-holds :
    (o : Option TaskExecution) (c : TaskClaim) → c.generation < generation_of o → holds o c ≡ false
stale-holds none c h = refl
stale-holds (some e) c h = ground arith

write_held-refused :
    (change : TaskExecution → TaskExecution) (o : Option TaskExecution) (c : TaskClaim) (db : Db)
    → holds o c ≡ false
    → write_held change o c db ≡ (false, db)
unfolding write_held
write_held-refused change none c db h = refl
write_held-refused change (some e) c db h = rw h

-- A claim that is not current can neither beat nor end.
pub current-refused :
    (db : Db) (c : TaskClaim)
    → claim_is_current db c ≡ false
    → ((lease now : ℕ) → heartbeat_claim c lease now db ≡ (false, db))
      × ((outcome : Outcome) (now : ℕ) → finish_claim c outcome now db ≡ (false, db))
unfolding claim_is_current heartbeat_claim finish_claim
current-refused db c h = (
  (λ lease now. write_held-refused (beat lease now) _ c db h),
  (λ outcome now. write_held-refused (settle outcome now) _ c db h),
)

pub stale-refused :
    (db : Db) (c : TaskClaim)
    → c.generation < generation_at db (claim_key c)
    → (claim_is_current db c ≡ false)
      × ((lease now : ℕ) → heartbeat_claim c lease now db ≡ (false, db))
      × ((outcome : Outcome) (now : ℕ) → finish_claim c outcome now db ≡ (false, db))
unfolding claim_is_current
stale-refused db c h =
    let stale = stale-holds (execution_at db (claim_key c)) c h in
    let refused = current-refused db c stale in (stale, refused.0, refused.1)
