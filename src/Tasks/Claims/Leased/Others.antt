-- ===== src/Tasks/Claims/Leased/Others.antt =====
-- A lease that runs, and the calls of `claim_task` that others make, with what commits while these run
-- (task_handoff.py).
use crash_cap.Base.{
  ℕ, ◌<◌, String, ◌≡◌, refl, sym, ◌∙◌, ap, Bool, true, false, Bool-cases, inl, inr, Option, none,
  some, arith, [], ◌&&◌, nat_eq, List, ◌∷◌, All, Result, ok, err,
}
use text.Mathlib.TextEquality.{eq_iff}
use crash_cap.Base.Keys.{◌==◌, text_keys, same_pair_iff, pair_keys}
use crash_cap.Tasks.Message.{Message, TaskError, TaskIdentity}
use crash_cap.Tasks.Rows.{
  Db, TaskIntent, TaskExecution, TaskClaim, claim_key, execution_key, execution_at, is_running,
  matches, names, Outcome,
}
use crash_cap.Tasks.Rows.Views.{execution_key-execution_at}
use crash_cap.Tasks.Claims.Writes.{current-refused}
use mathlib.Core.Path.{subst}
use crash_cap.Tasks.Claims.{
  identity_key, claim_checked, check_delivery, claim_task, claim_is_current, holds, write_held,
  beat, settle, finish_claim, heartbeat_claim, meanwhile, HeldWrite, beats, ends, write_of,
}
use crash_cap.Tasks.Claims.Leased.{Leased, acquire-Leased, saved_elsewhere, beat_key}

-- Whether two claims are of one holder.
abbrev pub same_holder : TaskClaim → TaskClaim → Bool
same_holder c d =
    claim_key d == claim_key c
    && d.attempt_id == c.attempt_id
    && nat_eq d.generation c.generation
    && d.owner_id == c.owner_id

abbrev pub claim_of : HeldWrite → TaskClaim
claim_of (beats c lease now) = c
claim_of (ends c outcome now) = c

other_matches :
    (e : TaskExecution) (c d : TaskClaim)
    → matches e c ≡ true
    → claim_key d ≡ claim_key c
    → same_holder c d ≡ false
    → matches e d ≡ false
other_matches e c d m k f = by_owner e.owner_id m
  where
    by_owner :
        (o : Option String)
        → (e.active_attempt_id == c.attempt_id
            && nat_eq e.generation c.generation
            && names o c.owner_id)
          ≡ true
        → (e.active_attempt_id == d.attempt_id
            && nat_eq e.generation d.generation
            && names o d.owner_id)
          ≡ false
    by_owner none h = absurd (ground (arith, h))
    by_owner (some o) h = ground (
      arith,
      h,
      f,
      (same_pair_iff (claim_key d) (claim_key c)).1 k,
      eq_iff e.active_attempt_id c.attempt_id,
      eq_iff e.active_attempt_id d.attempt_id,
      eq_iff d.attempt_id c.attempt_id,
      eq_iff o c.owner_id,
      eq_iff o d.owner_id,
      eq_iff d.owner_id c.owner_id,
    )

write_held-elsewhere :
    (change : TaskExecution → TaskExecution) (c : TaskClaim) (until : ℕ) (db : Db)
    (l : Leased c until db) (d : TaskClaim) (o : Option TaskExecution)
    → ((e : TaskExecution) → execution_key (change e) ≡ execution_key e)
    → execution_at db (claim_key d) ≡ o
    → (claim_key d == claim_key c) ≡ false
    → Leased c until (write_held change o d db).1
unfolding write_held
write_held-elsewhere change c until db l d none same at other = l
write_held-elsewhere change c until db l d (some e) same at other =
    elim (Bool-cases (matches e d && is_running e.outcome)) [
      | inl t ↦ rw t (
          saved_elsewhere c until db l (change e) (
            ap (λ k. k == claim_key c) (same e ∙ execution_key-execution_at (claim_key d) db at)
            ∙ other))
      | inr f ↦ rw f l
    ]

settle_key :
    (outcome : Outcome) (now : ℕ) (e : TaskExecution)
    → execution_key (settle outcome now e) ≡ execution_key e
unfolding settle
settle_key outcome now e = refl

module _ (c : TaskClaim) (until : ℕ) (db : Db) (l : Leased c until db) where
  other-stale :
      (d : TaskClaim)
      → same_holder c d ≡ false
      → claim_key d ≡ claim_key c
      → claim_is_current db d ≡ false
  unfolding claim_is_current
  other-stale d f k =
      rw (k, l.found, holds) (ground (arith, other_matches l.row c d l.matching k f))

  write_of-own :
      (w : HeldWrite)
      → same_holder c (claim_of w) ≡ false
      → claim_key (claim_of w) ≡ claim_key c
      → Leased c until (write_of w db)
  unfolding write_of
  write_of-own (beats d lease now) f k =
      subst (λ r. Leased c until r.1) (sym ((current-refused db d (other-stale d f k)).0 lease now))
        l
  write_of-own (ends d outcome now) f k =
      subst (λ r. Leased c until r.1)
        (sym ((current-refused db d (other-stale d f k)).1 outcome now)) l

  write_of-elsewhere :
      (w : HeldWrite)
      → (claim_key (claim_of w) == claim_key c) ≡ false
      → Leased c until (write_of w db)
  unfolding write_of heartbeat_claim finish_claim
  write_of-elsewhere (beats d lease now) e =
      write_held-elsewhere (beat lease now) c until db l d _ (beat_key lease now) refl e
  write_of-elsewhere (ends d outcome now) e =
      write_held-elsewhere (settle outcome now) c until db l d _ (settle_key outcome now) refl e

  -- A heartbeat or an end under a claim that is not the holder's leaves the lease alone.
  write_of-Leased :
      (w : HeldWrite) → same_holder c (claim_of w) ≡ false → Leased c until (write_of w db)
  write_of-Leased w f = elim (Bool-cases (claim_key (claim_of w) == claim_key c)) [
    | inl e ↦ write_of-own w f ((same_pair_iff (claim_key (claim_of w)) (claim_key c)).0 e)
    | inr e ↦ write_of-elsewhere w e
  ]

-- No write of the race is the holder's.
abbrev pub Foreign : TaskClaim → List HeldWrite → Type 0
Foreign c race = All (λ w. same_holder c (claim_of w) ≡ false) race

meanwhile-Leased :
    (c : TaskClaim) (until : ℕ) (race : List HeldWrite) (db : Db)
    → Foreign c race
    → Leased c until db
    → Leased c until (meanwhile race db)
unfolding meanwhile
meanwhile-Leased c until [] db f l = l
meanwhile-Leased c until (w ∷ ws) db f l =
    meanwhile-Leased c until ws (write_of w db) f.1 (write_of-Leased c until db l w f.0)

-- While the lease runs, no call of `claim_task` takes the execution over, whatever others write while it runs.
pub claim_task-Leased :
    (c : TaskClaim) (until : ℕ) (db : Db) (l : Leased c until db) (m : Message) (owner : String)
    (lease now : ℕ) (race : List HeldWrite)
    → Foreign c race
    → now < until
    → Leased c until (claim_task m owner lease now race db).1
unfolding claim_task claim_checked
claim_task-Leased c until db l m owner lease now race f lt = checked-Leased (check_delivery db m)
  where
    checked-Leased :
        (r : Result TaskError (TaskIntent × TaskIdentity))
        → Leased c until (claim_checked r owner lease now race db).1
    checked-Leased (err e) = meanwhile-Leased c until race db f l
    checked-Leased (ok (i, identity)) =
        acquire-Leased c until (meanwhile race db) (meanwhile-Leased c until race db f l) i identity
          owner lease now db l (execution_at db (identity_key identity)) refl lt
