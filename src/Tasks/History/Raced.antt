-- ===== src/Tasks/History/Raced.antt =====
-- A success that is recorded within a call of `claim_task` of task_handoff.py.
use mathlib.Core.Path.{subst}
use crash_cap.Base.{
  String, ◌≡◌, refl, sym, ◌∙◌, true, false, Option, some, none, ap, ◌⊎◌, if◌then◌else◌, ℕ,
  Bool-cases, inl, inr, List, Result, arith,
}
use crash_cap.Base.Keys.{◌==◌, text_keys, pair_keys, same_pair_iff}
use crash_cap.Tasks.Message.{Message, TaskError}
use crash_cap.Tasks.Rows.{Db, TaskExecution, TaskClaim, execution_key, execution_at, is_succeeded}
use crash_cap.Tasks.Rows.Views.{execution_at-save_execution}
use crash_cap.Tasks.Claims.{HeldWrite, meanwhile, claim_task}
use crash_cap.Tasks.Claims.Grants.{
  ClaimCases, raised, refused, granted, claim_task_cases, has_succeeded, runs,
}
use crash_cap.Tasks.History.{Call, calls}
use crash_cap.Tasks.History.Success.{NoPoison, Succeeded, meanwhile-ended, success_stays}

has_succeeded-Succeeded :
    (db : Db) (key : String × String) (o : Option TaskExecution)
    → execution_at db key ≡ o
    → has_succeeded o ≡ true
    → (e : TaskExecution) × Succeeded db key e
has_succeeded-Succeeded db key none at h = absurd (ground arith)
has_succeeded-Succeeded db key (some e) at h = (e, (at, h))

-- What was read ran, or what is there is what was read.
meanwhile_cases :
    (race : List HeldWrite) (db : Db) (key : String × String)
    → (runs (execution_at db key) ≡ true)
      ⊎ (execution_at (meanwhile race db) key ≡ execution_at db key)
meanwhile_cases race db key = elim (Bool-cases (runs (execution_at db key))) [
  | inl r ↦ inl r
  | inr n ↦ inr (meanwhile-ended race db key (execution_at db key) n refl)
]

granted-success :
    (old there : Option TaskExecution) (row : TaskExecution)
    → is_succeeded row.outcome ≡ (if runs old then has_succeeded there else false)
    → (runs old ≡ true) ⊎ (there ≡ old)
    → has_succeeded old ≡ false
    → has_succeeded there ≡ true
    → is_succeeded row.outcome ≡ true
granted-success old there row h (inl r) u t = ground (arith, h, r, t)
granted-success old there row h (inr same) u t =
    absurd (ground (arith, ap has_succeeded same, u, t))

ClaimCases-success :
    (db db1 : Db) {out : Result TaskError TaskClaim × Db} (key : String × String)
    → ((k : String × String)
        → (runs (execution_at db k) ≡ true) ⊎ (execution_at db1 k ≡ execution_at db k))
    → ClaimCases db db1 out
    → has_succeeded (execution_at db1 key) ≡ true
    → has_succeeded (execution_at out.1 key) ≡ true
ClaimCases-success db db1 key from (raised x) h = h
ClaimCases-success db db1 key from (refused c f) h = h
ClaimCases-success db db1 key from (granted k c db' g) h =
    rw (g.written, execution_at-save_execution)
      (elim (Bool-cases (execution_key g.row == key)) [
        | inl e ↦ rw e (
            granted-success (execution_at db k) (execution_at db1 k) g.row g.row_success (from k)
              g.unfinished
              (subst (λ x. has_succeeded (execution_at db1 x) ≡ true)
                (sym ((same_pair_iff (execution_key g.row) key).0 e) ∙ g.row_key) h))
        | inr e ↦ rw e h
      ])

-- A success that is recorded while `claim_task` is between its read of the execution and its write is not lost:
-- whatever the call does with the row that it read, the outcome is succeeded afterwards, and stays
-- so through any calls but those of `poison_task_delivery`.
pub claimed_success-stays :
    (db : Db) (m : Message) (owner : String) (lease now : ℕ) (race : List HeldWrite)
    (xs : List Call) (key : String × String)
    → has_succeeded (execution_at (meanwhile race db) key) ≡ true
    → NoPoison xs
    → has_succeeded (execution_at (calls (claim_task m owner lease now race db).1 xs) key) ≡ true
claimed_success-stays db m owner lease now race xs key h n =
    let db' = (claim_task m owner lease now race db).1 in
    let kept =
      ClaimCases-success db (meanwhile race db) key (meanwhile_cases race db)
        (claim_task_cases m owner lease now race db) h in
    let (e, s) = has_succeeded-Succeeded db' key (execution_at db' key) refl kept in
    ap has_succeeded (success_stays db' xs key e s.0 s.1 n) ∙ s.1
