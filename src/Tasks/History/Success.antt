-- ===== src/Tasks/History/Success.antt =====
-- A recorded success over a history of calls of task_handoff.py.
use mathlib.Core.Path.{subst}
use crash_cap.Base.{
  String, ◌≡◌, refl, sym, ◌∙◌, Bool, true, false, Option, some, ap, inl, inr, List, [], ◌∷◌, Result,
  arith,
}
use crash_cap.Base.Keys.{text_keys, pair_keys, same_pair_iff}
use crash_cap.Tasks.Message.{TaskError}
use crash_cap.Tasks.Rows.{
  Db, TaskExecution, TaskClaim, execution_key, execution_at, save_execution, is_succeeded,
  is_running,
}
use crash_cap.Tasks.Rows.Views.{execution_at-save_execution, execution_at_of_executions}
use crash_cap.Tasks.Claims.{HeldWrite, write_of, meanwhile}
use crash_cap.Tasks.Claims.Grants.{
  ClaimCases, raised, refused, granted, claim_task_cases, has_succeeded, runs,
}
use crash_cap.Tasks.Intents.Keeps.{
  create_task_intent-executions, request_task_redelivery-executions,
}
use crash_cap.Tasks.Claims.Writes.{
  KeepsGeneration, heartbeat_claim-Kept, finish_claim-Kept, write_of-Kept,
}
use crash_cap.Tasks.Relay.Keeps.{
  claim_relay_intent-executions, acknowledge_relay_publish-executions,
  reject_relay_publish-executions,
}
use crash_cap.Tasks.History.{
  Call, create, redeliver, claim, beat, finish, poison, relay, acknowledge, reject, call, calls,
}

abbrev pub is_poison : Call → Bool
is_poison (poison m code now) = true
is_poison _ = false

abbrev pub NoPoison : List Call → Type 0
NoPoison [] = Unit
NoPoison (x ∷ xs) = (is_poison x ≡ false) × NoPoison xs

-- The row of a task that has succeeded.
abbrev pub Succeeded : Db → String × String → TaskExecution → Type 0
Succeeded db key e = (execution_at db key ≡ some e) × (is_succeeded e.outcome ≡ true)

-- A write under another key is not seen.
save-elsewhere :
    (new : TaskExecution) (db : Db) (key : String × String) {o : Option TaskExecution}
    → execution_at db key ≡ o
    → (execution_key new ≡ key → ⊥)
    → execution_at (save_execution new db) key ≡ o
save-elsewhere new db key h ne =
    rw execution_at-save_execution (ground (arith, same_pair_iff (execution_key new) key))

running-not-ended :
    (old : TaskExecution) (o : Option TaskExecution)
    → some old ≡ o
    → is_running old.outcome ≡ true
    → runs o ≡ false
    → ⊥
running-not-ended old o same r s = ground (arith, ap runs same)

-- What does not run is left alone by a write that asks for a row that runs.
KeepsGeneration-ended :
    (db db' : Db) (key : String × String) (o : Option TaskExecution)
    → KeepsGeneration true db db'
    → runs o ≡ false
    → execution_at db key ≡ o
    → execution_at db' key ≡ o
KeepsGeneration-ended db db' key o (inr same) n at = execution_at_of_executions db db' key same ∙ at
KeepsGeneration-ended db db' key o (inl k) n at =
    execution_at_of_executions (save_execution k.new db) db' key k.written
    ∙ save-elsewhere k.new db key at elsewhere
  where
    elsewhere : execution_key k.new ≡ key → ⊥
    elsewhere q =
        running-not-ended k.old o
          (sym (subst (λ x. execution_at db x ≡ some k.old) (sym k.same_key ∙ q) k.found) ∙ at)
          (k.old_running refl) n

pub meanwhile-ended :
    (race : List HeldWrite) (db : Db) (key : String × String) (o : Option TaskExecution)
    → runs o ≡ false
    → execution_at db key ≡ o
    → execution_at (meanwhile race db) key ≡ o
unfolding meanwhile
meanwhile-ended [] db key o n at = at
meanwhile-ended (w ∷ ws) db key o n at =
    meanwhile-ended ws (write_of w db) key o n
      (KeepsGeneration-ended db _ key o (write_of-Kept w db) n at)

succeeded-ended : (e : TaskExecution) → is_succeeded e.outcome ≡ true → runs (some e) ≡ false
succeeded-ended e s = ground (arith, s)

KeepsGeneration-Succeeded :
    (db db' : Db) (key : String × String) (e : TaskExecution)
    → KeepsGeneration true db db'
    → Succeeded db key e
    → Succeeded db' key e
KeepsGeneration-Succeeded db db' key e k s =
    (KeepsGeneration-ended db db' key (some e) k (succeeded-ended e s.1) s.0, s.1)

finished-not-Granted :
    (key : String × String) (db : Db) (e : TaskExecution)
    → Succeeded db key e
    → has_succeeded (execution_at db key) ≡ false
    → ⊥
finished-not-Granted key db e s f = ground arith

ClaimCases-Succeeded :
    (db db1 : Db) {out : Result TaskError TaskClaim × Db} (key : String × String)
    (e : TaskExecution)
    → ClaimCases db db1 out
    → Succeeded db key e
    → Succeeded db1 key e
    → Succeeded out.1 key e
ClaimCases-Succeeded db db1 key e (raised x) s t = t
ClaimCases-Succeeded db db1 key e (refused c f) s t = t
ClaimCases-Succeeded db db1 key e (granted k c db' g) s t = (
  rw g.written (
      save-elsewhere g.row db1 key t.0 (λ q.
        finished-not-Granted key db e s (
          subst (λ x. has_succeeded (execution_at db x) ≡ false) (sym g.row_key ∙ q)
            g.unfinished))),
  t.1,
)

call-Succeeded :
    (db : Db) (x : Call) (key : String × String) (e : TaskExecution)
    → is_poison x ≡ false
    → Succeeded db key e
    → Succeeded (call db x) key e
unfolding call
call-Succeeded db (create m options race now) key e n s =
    KeepsGeneration-Succeeded db _ key e (inr (create_task_intent-executions m options race now db))
      s
call-Succeeded db (redeliver m race requested now) key e n s =
    KeepsGeneration-Succeeded db _ key e
      (inr (request_task_redelivery-executions m race requested now db)) s
call-Succeeded db (claim m owner lease now race) key e n s =
    ClaimCases-Succeeded db (meanwhile race db) key e (claim_task_cases m owner lease now race db) s
      (meanwhile-ended race db key (some e) (succeeded-ended e s.1) s.0, s.1)
call-Succeeded db (beat c lease now) key e n s =
    KeepsGeneration-Succeeded db _ key e (heartbeat_claim-Kept c lease now db) s
call-Succeeded db (finish c outcome now) key e n s =
    KeepsGeneration-Succeeded db _ key e (finish_claim-Kept c outcome now db) s
call-Succeeded db (poison m code now) key e n s = absurd (ground arith)
call-Succeeded db (relay locked owner lease now) key e n s =
    KeepsGeneration-Succeeded db _ key e
      (inr (claim_relay_intent-executions locked owner lease now db)) s
call-Succeeded db (acknowledge c now) key e n s =
    KeepsGeneration-Succeeded db _ key e (inr (acknowledge_relay_publish-executions c now db)) s
call-Succeeded db (reject c code permanent base limit now) key e n s =
    KeepsGeneration-Succeeded db _ key e
      (inr (reject_relay_publish-executions c code permanent base limit now db)) s

-- A task that has succeeded keeps its row, outcome and generation included, through any calls but
-- those of `poison_task_delivery`, whatever heartbeats and ends commit within the calls of `claim_task`.
pub success_stays :
    (db : Db) (xs : List Call) (key : String × String) (e : TaskExecution)
    → execution_at db key ≡ some e
    → is_succeeded e.outcome ≡ true
    → NoPoison xs
    → execution_at (calls db xs) key ≡ some e
unfolding calls
success_stays db [] key e h s n = h
success_stays db (x ∷ xs) key e h s n =
    success_stays (call db x) xs key e (call-Succeeded db x key e n.0 (h, s)).0 s n.1
