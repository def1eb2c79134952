-- ===== src/Tasks/Claims/Leased.antt =====
-- An execution whose lease runs is left alone by the claims of others, and its holder can renew the
-- lease (task_handoff.py).
use crash_cap.Base.{
  ℕ, ◌+◌, ◌<◌, String, ◌≡◌, refl, sym, ◌∙◌, ap, Bool, true, false, Bool-cases, inl, inr, Option,
  none, some, arith, [], ◌&&◌, nat_eq, List, ◌∷◌, All, seconds, if◌then◌else◌, Result, ok, err,
}
pub mod Others
use text.Mathlib.TextEquality.{eq_iff}
use crash_cap.Base.Keys.{◌==◌, text_keys, same_pair_iff, pair_keys}
use crash_cap.Tasks.Message.{Message, TaskError, TaskIdentity}
use crash_cap.Tasks.Rows.{
  Db, TaskIntent, TaskExecution, TaskClaim, claim_key, execution_key, execution_at, save_execution,
  is_running, is_succeeded, matches, names, Outcome,
}
use crash_cap.Tasks.Rows.Views.{execution_at-save_execution, execution_key-execution_at}
use crash_cap.Tasks.Claims.Writes.{current-refused}
use mathlib.Core.Path.{subst}
use crash_cap.Tasks.Intents.{lease_active}
use mathlib.Core.Bool.{not, ◌||◌}
use crash_cap.Tasks.Claims.Grants.{reclaimed-key, stored_row-key}
use crash_cap.Tasks.Claims.{
  acquire, identity_key, claim_checked, check_delivery, claim_task, claim_is_current, holds,
  write_held, beat, settle, finish_claim, heartbeat_claim, first_execution, reclaimed, stored_row,
  meanwhile, HeldWrite, beats, ends, write_of,
}

-- The claim holds the execution, until an instant if it does not beat.
pub record Leased (c : TaskClaim) (until : ℕ) (db : Db) : Type 0 where
  pub row : TaskExecution
  pub found : execution_at db (claim_key c) ≡ some row
  pub matching : matches row c ≡ true
  pub running : is_running row.outcome ≡ true
  pub lease : row.lease_until ≡ some until

none-ne-some : {e : TaskExecution} → none ≡ some e → ⊥
none-ne-some h = cc

some_inj : {e f : TaskExecution} → some e ≡ some f → e ≡ f
some_inj h = cc

acquire-active :
    (i : TaskIntent) (identity : TaskIdentity) (owner : String) (lease now : ℕ) (e : TaskExecution)
    (db : Db) {until : ℕ}
    → is_running e.outcome ≡ true
    → e.lease_until ≡ some until
    → now < until
    → (acquire i identity owner lease now (some e) db).1 ≡ db
unfolding acquire
acquire-active i identity owner lease now e db {until} running leased lt =
    ground (arith, running, leased, lt)

-- Whether a worker may take the execution over.
abbrev free : TaskExecution → ℕ → Bool
free e now = not (is_succeeded e.outcome || lease_active e now)

acquire-some :
    (i : TaskIntent) (identity : TaskIdentity) (owner : String) (lease now : ℕ) (e : TaskExecution)
    (db : Db)
    → (acquire i identity owner lease now (some e) db).1 ≡ (
        if free e now
        then save_execution
            (reclaimed e (stored_row e (execution_at db (execution_key e))) i owner lease now)
            db
        else db)
unfolding acquire
acquire-some i identity owner lease now e db = ground arith

beat_key : (lease now : ℕ) (e : TaskExecution) → execution_key (beat lease now e) ≡ execution_key e
unfolding beat
beat_key lease now e = refl

write_held-row :
    (change : TaskExecution → TaskExecution) (e : TaskExecution) (c : TaskClaim) (db : Db)
    → matches e c ≡ true
    → is_running e.outcome ≡ true
    → (write_held change (some e) c db).1 ≡ save_execution (change e) db
unfolding write_held
write_held-row change e c db m r = ground (arith, m, r)

module _ (c : TaskClaim) (until : ℕ) (db : Db) (l : Leased c until db) where
  pub Leased-current : claim_is_current db c ≡ true
  unfolding claim_is_current
  Leased-current = rw (l.found, holds) (ground (arith, l.matching, l.running))

  saved_elsewhere :
      (e : TaskExecution)
      → (execution_key e == claim_key c) ≡ false
      → Leased c until (save_execution e db)
  saved_elsewhere e other = record {
    row = l.row;
    found = execution_at-save_execution e (claim_key c) db ∙ (rw other l.found);
    matching = l.matching;
    running = l.running;
    lease = l.lease;
  }

  either_Leased :
      (b : Bool) (e : TaskExecution)
      → (execution_key e == claim_key c) ≡ false
      → Leased c until (if b then save_execution e db else db)
  either_Leased true e other = saved_elsewhere e other
  either_Leased false e other = l

  acquire-Leased :
      (i : TaskIntent) (identity : TaskIdentity) (owner : String) (lease now : ℕ) (read : Db)
      (held : Leased c until read) (old : Option TaskExecution)
      → execution_at read (identity_key identity) ≡ old
      → now < until
      → Leased c until (acquire i identity owner lease now old db).1
  acquire-Leased i identity owner lease now read held none at lt =
      elim (Bool-cases (identity_key identity == claim_key c)) [
        | inl same ↦ absurd (
            none-ne-some
              (sym at ∙ (ap (execution_at read) ((same_pair_iff _ _).0 same) ∙ held.found)))
        | inr other ↦
            unfold acquire in
            saved_elsewhere (first_execution i identity owner lease now)
              (unfold first_execution in other)
      ]
  acquire-Leased i identity owner lease now read held (some e) at lt =
      elim (Bool-cases (identity_key identity == claim_key c)) [
        | inl same ↦
            let own : e ≡ held.row =
              some_inj
                (sym at ∙ (ap (execution_at read) ((same_pair_iff _ _).0 same) ∙ held.found)) in
            subst (λ x. Leased c until (acquire i identity owner lease now (some x) db).1) (sym own)
              (subst (Leased c until)
                (sym (
                  acquire-active i identity owner lease now held.row db held.running held.lease lt))
                l)
        | inr other ↦ subst (Leased c until) (sym (acquire-some i identity owner lease now e db)) (
            either_Leased (free e now)
              (reclaimed e (stored_row e (execution_at db (execution_key e))) i owner lease now)
              (ap (λ k. k == claim_key c)
                  (reclaimed-key e (stored_row e (execution_at db (execution_key e))) i owner lease
                      now
                    ∙ (stored_row-key e (execution_key e) db (execution_at db (execution_key e))
                          refl refl
                        ∙ execution_key-execution_at (identity_key identity) read at))
                ∙ other))
      ]

  -- A heartbeat of the holder starts the lease anew.
  pub heartbeat_claim-Leased :
      (lease now : ℕ) → Leased c (now + seconds lease) (heartbeat_claim c lease now db).1
  unfolding heartbeat_claim
  heartbeat_claim-Leased lease now =
      subst (λ o. Leased c (now + seconds lease) (write_held (beat lease now) o c db).1)
        (sym l.found)
        (subst (Leased c (now + seconds lease))
          (sym (write_held-row (beat lease now) l.row c db l.matching l.running))
          (record {
            row = beat lease now l.row;
            found =
                execution_at-save_execution (beat lease now l.row) (claim_key c) db
                ∙ rw
                    ((same_pair_iff (execution_key (beat lease now l.row)) (claim_key c)).1 (
                      beat_key lease now l.row
                      ∙ execution_key-execution_at (claim_key c) db l.found))
                    refl;
            matching = unfold beat in l.matching;
            running = unfold beat in l.running;
            lease = unfold beat in refl;
          }))
