-- ===== src/Tasks/History/Fencing.antt =====
-- Fencing tokens over a history of calls of task_handoff.py.
use crash_cap.Base.{
  ℕ, ◌≤◌, ◌<◌, String, ◌≡◌, ap, ◌∙◌, refl, Bool, true, false, inl, inr, List, [], ◌∷◌, Result, ok,
  arith,
}
use crash_cap.Base.Keys.{text_keys, pair_keys, same_pair_iff}
use crash_cap.Tasks.Message.{Message, TaskError}
use crash_cap.Tasks.Rows.{
  Db, TaskExecution, Outcome, TaskClaim, claim_key, execution_key, execution_at, save_execution,
}
use crash_cap.Tasks.Rows.Views.{execution_at-save_execution, execution_at_of_executions}
use crash_cap.Tasks.Claims.{
  HeldWrite, write_of, meanwhile, claim_task, claim_is_current, heartbeat_claim, finish_claim,
}
use crash_cap.Tasks.Claims.Grants.{
  ClaimCases, raised, refused, granted, claim_task_cases, claim_task-next, generation_of,
  generation_at,
}
use crash_cap.Tasks.Intents.Keeps.{
  create_task_intent-executions, request_task_redelivery-executions,
}
use crash_cap.Tasks.Claims.Writes.{
  KeepsGeneration, stale-refused, heartbeat_claim-Kept, finish_claim-Kept, write_of-Kept,
  poison_task_delivery-Kept,
}
use crash_cap.Tasks.Relay.Keeps.{
  claim_relay_intent-executions, acknowledge_relay_publish-executions,
  reject_relay_publish-executions,
}
use crash_cap.Tasks.History.{
  Call, create, redeliver, claim, beat, finish, poison, relay, acknowledge, reject, call, calls,
}

-- A row written over the one of its key, of no smaller generation, makes no generation fall.
generation_at-save_execution :
    (e : TaskExecution) (db : Db) (key : String × String)
    → generation_at db (execution_key e) ≤ e.generation
    → generation_at db key ≤ generation_at (save_execution e db) key
generation_at-save_execution e db key h =
    rw execution_at-save_execution (ground (arith, same_pair_iff (execution_key e) key))

-- A row written over the one of its key, of the same generation, changes none.
saved-generation :
    (e : TaskExecution) (db : Db) (key : String × String)
    → e.generation ≡ generation_at db (execution_key e)
    → generation_at (save_execution e db) key ≡ generation_at db key
saved-generation e db key h =
    rw execution_at-save_execution (ground (arith, same_pair_iff (execution_key e) key))

generation_at_of_executions :
    (db db' : Db) (key : String × String)
    → db'.executions ≡ db.executions
    → generation_at db' key ≡ generation_at db key
generation_at_of_executions db db' key e =
    ap generation_of (execution_at_of_executions db db' key e)

KeepsGeneration-same :
    {checked : Bool} (db db' : Db) (key : String × String)
    → KeepsGeneration checked db db'
    → generation_at db' key ≡ generation_at db key
KeepsGeneration-same db db' key (inr e) = generation_at_of_executions db db' key e
KeepsGeneration-same db db' key (inl k) =
    generation_at_of_executions (save_execution k.new db) db' key k.written
    ∙ saved-generation k.new db key (rw (k.same_key, k.found) k.same_generation)

generation_at-meanwhile :
    (race : List HeldWrite) (db : Db) (key : String × String)
    → generation_at (meanwhile race db) key ≡ generation_at db key
unfolding meanwhile
generation_at-meanwhile [] db key = refl
generation_at-meanwhile (w ∷ ws) db key =
    generation_at-meanwhile ws (write_of w db) key
    ∙ KeepsGeneration-same db _ key (write_of-Kept w db)

ClaimCases-mono :
    (db db1 : Db) {out : Result TaskError TaskClaim × Db} (key : String × String)
    → ((k : String × String) → generation_at db1 k ≡ generation_at db k)
    → ClaimCases db db1 out
    → generation_at db key ≤ generation_at out.1 key
ClaimCases-mono db db1 key same (raised e) = omega (arith, same key)
ClaimCases-mono db db1 key same (refused c f) = omega (arith, same key)
ClaimCases-mono db db1 key same (granted k c db' g) = rw g.written (
    omega (
      arith,
      same key,
      generation_at-save_execution g.row db1 key (rw g.row_key (omega (arith, g.next_row, same k))),
    ))

-- No call makes a generation fall.
call_mono :
    (db : Db) (x : Call) (key : String × String)
    → generation_at db key ≤ generation_at (call db x) key
unfolding call execution_at
call_mono db (create m options race now) key = omega (
  arith,
  generation_at_of_executions db _ key (create_task_intent-executions m options race now db),
)
call_mono db (redeliver m race requested now) key = omega (
  arith,
  generation_at_of_executions db _ key (request_task_redelivery-executions m race requested now db),
)
call_mono db (claim m owner lease now race) key =
    ClaimCases-mono db (meanwhile race db) key (generation_at-meanwhile race db)
      (claim_task_cases m owner lease now race db)
call_mono db (beat c lease now) key =
    omega (arith, KeepsGeneration-same db _ key (heartbeat_claim-Kept c lease now db))
call_mono db (finish c outcome now) key =
    omega (arith, KeepsGeneration-same db _ key (finish_claim-Kept c outcome now db))
call_mono db (poison m code now) key =
    omega (arith, KeepsGeneration-same db _ key (poison_task_delivery-Kept m code now db))
call_mono db (relay locked owner lease now) key = omega (
  arith,
  generation_at_of_executions db _ key (claim_relay_intent-executions locked owner lease now db),
)
call_mono db (acknowledge c now) key =
    omega
      (arith, generation_at_of_executions db _ key (acknowledge_relay_publish-executions c now db))
call_mono db (reject c code permanent base limit now) key = omega (
  arith,
  generation_at_of_executions db _ key
      (reject_relay_publish-executions c code permanent base limit now db),
)

pub calls_mono :
    (db : Db) (xs : List Call) (key : String × String)
    → generation_at db key ≤ generation_at (calls db xs) key
unfolding calls
calls_mono db [] key = omega arith
calls_mono db (x ∷ xs) key = omega (arith, call_mono db x key, calls_mono (call db x) xs key)

-- A claim whose generation the row has passed is stale for good: after any further calls it is not
-- current, and a heartbeat or an end under it is refused and writes nothing.
pub stale_for_good :
    (db : Db) (c : TaskClaim) (xs : List Call)
    → c.generation < generation_at db (claim_key c)
    → (claim_is_current (calls db xs) c ≡ false)
      × ((lease now : ℕ) → heartbeat_claim c lease now (calls db xs) ≡ (false, calls db xs))
      × ((outcome : Outcome) (now : ℕ)
          → finish_claim c outcome now (calls db xs) ≡ (false, calls db xs))
stale_for_good db c xs h =
    stale-refused (calls db xs) c (omega (arith, calls_mono db xs (claim_key c)))

-- Takeover: once a later call of `claim_task` has granted the same task to somebody, the earlier
-- claim has a smaller generation, and whatever is called afterwards, and whatever heartbeats and ends
-- commit within the calls of `claim_task`, it is not current and can neither prolong its lease nor
-- record an outcome.
pub takeover_fences :
    (db : Db) (c c' : TaskClaim) (m m' : Message) (owner owner' : String)
    (lease lease' now now' : ℕ) (race race' : List HeldWrite) (xs ys : List Call)
    → (claim_task m owner lease now race db).0 ≡ ok c
    → c.acquired ≡ true
    → (claim_task m' owner' lease' now' race' (calls (claim_task m owner lease now race db).1 xs)).0
      ≡ ok c'
    → c'.acquired ≡ true
    → claim_key c' ≡ claim_key c
    → let late =
        calls
          (claim_task m' owner' lease' now' race'
            (calls (claim_task m owner lease now race db).1 xs)).1
          ys in
      (c.generation < c'.generation)
      × (claim_is_current late c ≡ false)
      × ((l t : ℕ) → heartbeat_claim c l t late ≡ (false, late))
      × ((outcome : Outcome) (t : ℕ) → finish_claim c outcome t late ≡ (false, late))
takeover_fences db c c' m m' owner owner' lease lease' now now' race race' xs ys e a e' a' same =
    let db1 = (claim_task m owner lease now race db).1 in
    let db2 = calls db1 xs in
    let db3 = (claim_task m' owner' lease' now' race' db2).1 in
    let first = claim_task-next m owner lease now race db c e a in
    let second = claim_task-next m' owner' lease' now' race' db2 c' e' a' in
    let grown = calls_mono db1 xs (claim_key c) in
    let newer : c.generation < c'.generation =
      omega (arith, first.1, grown, (rw same at (second.0))) in
    let passed : c.generation < generation_at db3 (claim_key c) =
      omega (arith, newer, (rw same at (second.1))) in
    let refused = stale_for_good db3 c ys passed in (newer, refused.0, refused.1, refused.2)
