-- ===== src/Tasks/Claims/Grants.antt =====
-- What `claim_task` of task_handoff.py grants, and when.
use mathlib.Core.Path.{subst}
use crash_cap.Base.{
  ℕ, ◌+◌, String, ◌≡◌, refl, Bool, true, false, Option, none, some, ◌⊎◌, ◌∙◌, sym, Bool-cases, inl,
  inr, Result, ok, err, arith, List, if◌then◌else◌,
}
use crash_cap.Base.Keys.{text_keys, pair_keys}
use crash_cap.Tasks.Message.{Message, TaskError}
use crash_cap.Tasks.Rows.{
  Db, TaskIntent, TaskExecution, TaskClaim, claim_key, execution_key, execution_at, save_execution,
  is_succeeded, is_running,
}
use crash_cap.Tasks.Rows.Views.{execution_key-execution_at, execution_at-save_self}
use crash_cap.Tasks.Message.{TaskIdentity}
use crash_cap.Tasks.Intents.{lease_active}
use crash_cap.Tasks.Claims.{
  check_delivery, acquire, claim_checked, identity_key, claim_task, HeldWrite, meanwhile, reclaimed,
  stored_row,
}

-- The generation that the row under a key has reached; 0 before the first claim.
abbrev pub generation_of : Option TaskExecution → ℕ
generation_of none = 0
generation_of (some e) = e.generation

abbrev pub generation_at : Db → String × String → ℕ
generation_at db key = generation_of (execution_at db key)

abbrev pub has_succeeded : Option TaskExecution → Bool
has_succeeded none = false
has_succeeded (some e) = is_succeeded e.outcome

abbrev pub runs : Option TaskExecution → Bool
runs none = false
runs (some e) = is_running e.outcome

-- What a granted claim has written: over the tables `db`, after the execution was read as `old`.
pub record Granted (key : String × String) (old : Option TaskExecution) (db : Db) (c : TaskClaim)
    (db' : Db) : Type 0 where
  pub row : TaskExecution
  pub written : db' ≡ save_execution row db
  pub row_key : execution_key row ≡ key
  pub of_claim : claim_key c ≡ key
  pub unfinished : has_succeeded old ≡ false
  pub row_success :
      is_succeeded row.outcome ≡ (if runs old then has_succeeded (execution_at db key) else false)
  pub next_row : row.generation ≡ generation_of old + 1
  pub next_claim : c.generation ≡ generation_of old + 1

pub stored_row-key :
    (e : TaskExecution) (key : String × String) (db : Db) (o : Option TaskExecution)
    → execution_key e ≡ key
    → execution_at db key ≡ o
    → execution_key (stored_row e o) ≡ key
unfolding stored_row
stored_row-key e key db none h at = h
stored_row-key e key db (some x) h at = execution_key-execution_at key db at

pub reclaimed-key :
    (e stored : TaskExecution) (i : TaskIntent) (owner : String) (lease now : ℕ)
    → execution_key (reclaimed e stored i owner lease now) ≡ execution_key stored
unfolding reclaimed
reclaimed-key e stored i owner lease now = refl

reclaimed-success :
    (e : TaskExecution) (o : Option TaskExecution) (i : TaskIntent) (owner : String) (lease now : ℕ)
    → is_succeeded e.outcome ≡ false
    → is_succeeded (reclaimed e (stored_row e o) i owner lease now).outcome
      ≡ (if is_running e.outcome then has_succeeded o else false)
unfolding reclaimed stored_row
reclaimed-success e none i owner lease now open_ = ground (arith, open_)
reclaimed-success e (some x) i owner lease now open_ = ground (arith, open_)

-- `acquire` grants a claim and writes its row, or it refuses and writes nothing.
acquire_cases :
    (i : TaskIntent) (identity : TaskIdentity) (owner : String) (lease now : ℕ)
    (old : Option TaskExecution) (db : Db)
    → ((e : TaskExecution) → old ≡ some e → execution_key e ≡ identity_key identity)
    → let (c, db') = acquire i identity owner lease now old db in
      Granted (identity_key identity) old db c db' ⊎ ((c.acquired ≡ false) × (db' ≡ db))
unfolding acquire
acquire_cases i identity owner lease now none db h = inl (record {
  row = _;
  written = refl;
  row_key = refl;
  of_claim = refl;
  unfinished = refl;
  row_success = refl;
  next_row = refl;
  next_claim = refl;
})
acquire_cases i identity owner lease now (some e) db h =
    elim (Bool-cases (is_succeeded e.outcome)) [
      | inl done ↦ rw done (inr (refl, refl))
      | inr open_ ↦ rw open_ (elim (Bool-cases (lease_active e now)) [
        | inl busy ↦ rw busy (inr (refl, refl))
        | inr free ↦ rw free (
            inl (record {
              row =
                  reclaimed e (stored_row e (execution_at db (execution_key e))) i owner lease now;
              written = refl;
              row_key =
                  reclaimed-key e (stored_row e (execution_at db (execution_key e))) i owner lease
                    now
                  ∙ (stored_row-key e (execution_key e) db _ refl refl ∙ h e refl);
              of_claim = h e refl;
              unfinished = open_;
              row_success =
                  rw (← h e refl) (
                    reclaimed-success e (execution_at db (execution_key e)) i owner lease now
                      open_);
              next_row = refl;
              next_claim = refl;
            }))
      ])
    ]

-- The generation of a claim that is granted is one more than the row's was, and the row has reached it.
Granted-next :
    {key : String × String} (db : Db) {db1 : Db} {c : TaskClaim} {db' : Db}
    → Granted key (execution_at db key) db1 c db'
    → (c.generation ≡ generation_at db key + 1) × (generation_at db' key ≡ c.generation)
Granted-next {key} db {db1} {c} {db'} g = (g.next_claim, reached)
  where
    at_key : execution_at db' key ≡ some g.row
    at_key = rw (g.written, ← g.row_key) (execution_at-save_self g.row db1)

    reached : generation_at db' key ≡ c.generation
    reached = rw at_key (g.next_row ∙ sym g.next_claim)

-- The outcomes of a call of `claim_task`, which reads the tables `db` and writes the tables `db1`.
pub data ClaimCases (db db1 : Db) : Result TaskError TaskClaim × Db → Type 0 where
  raised : (e : TaskError) → ClaimCases db db1 (err e, db1)
  refused : (c : TaskClaim) → c.acquired ≡ false → ClaimCases db db1 (ok c, db1)
  granted :
      (key : String × String) (c : TaskClaim) (db' : Db)
      → Granted key (execution_at db key) db1 c db'
      → ClaimCases db db1 (ok c, db')

claim_checked_cases :
    (r : Result TaskError (TaskIntent × TaskIdentity)) (owner : String) (lease now : ℕ)
    (race : List HeldWrite) (db : Db)
    → ClaimCases db (meanwhile race db) (claim_checked r owner lease now race db)
unfolding claim_checked
claim_checked_cases (err e) owner lease now race db = raised e
claim_checked_cases (ok (i, identity)) owner lease now race db =
    elim (acquire_cases i identity owner lease now (execution_at db key) (meanwhile race db)
      found) [ inl g ↦ granted key _ _ g | inr n ↦ rw n.1 (refused _ n.0) ]
  where
    key : String × String
    key = identity_key identity

    found : (e : TaskExecution) → execution_at db key ≡ some e → execution_key e ≡ key
    found e h = execution_key-execution_at key db h

pub claim_task_cases :
    (m : Message) (owner : String) (lease now : ℕ) (race : List HeldWrite) (db : Db)
    → ClaimCases db (meanwhile race db) (claim_task m owner lease now race db)
unfolding claim_task
claim_task_cases m owner lease now race db =
    claim_checked_cases (check_delivery db m) owner lease now race db

ClaimCases-next :
    {db db1 : Db} {out : Result TaskError TaskClaim × Db}
    → ClaimCases db db1 out
    → (c : TaskClaim) → out.0 ≡ ok c
    → c.acquired ≡ true
    → (c.generation ≡ generation_at db (claim_key c) + 1)
      × (generation_at out.1 (claim_key c) ≡ c.generation)
ClaimCases-next (raised x) c h a = absurd (ground arith)
ClaimCases-next (refused c' f) c h a = absurd (ground arith)
ClaimCases-next {db} {db1} (granted key c' db' g) c h a =
    subst
      (λ x.
        (x.generation ≡ generation_at db (claim_key x) + 1)
        × (generation_at db' (claim_key x) ≡ x.generation))
      same (rw g.of_claim (Granted-next db g))
  where
    same : c' ≡ c
    same = cc

-- The generation of a claim that is granted is one more than the row's was when it was read, and the row has
-- reached it.
pub claim_task-next :
    (m : Message) (owner : String) (lease now : ℕ) (race : List HeldWrite) (db : Db) (c : TaskClaim)
    → (claim_task m owner lease now race db).0 ≡ ok c
    → c.acquired ≡ true
    → let db' = (claim_task m owner lease now race db).1 in
      (c.generation ≡ generation_at db (claim_key c) + 1)
      × (generation_at db' (claim_key c) ≡ c.generation)
claim_task-next m owner lease now race db c e a =
    ClaimCases-next (claim_task_cases m owner lease now race db) c e a
