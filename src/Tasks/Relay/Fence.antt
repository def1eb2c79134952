-- ===== src/Tasks/Relay/Fence.antt =====
-- The end of a publication under a claim that is current, and what it leaves to others
-- (task_handoff.py).
use package.text.Mathlib.TextEquality.{eq_iff}
use crash_cap.Base.{ℕ, String, ◌≡◌, refl, ◌∙◌, Bool, true, false, some}
use crash_cap.Tasks.Rows.{Db, TaskIntent, RelayClaim, intent_at, relay_matches}
use crash_cap.Tasks.Rows.Views.{intent_at-save_intent, attempt_id-intent_at}
use crash_cap.Tasks.Relay.{
  write_relayed, acknowledged, acknowledge_relay_publish, rejected_row, reject_relay_publish,
}
use crash_cap.Tasks.Relay.Backoff.{
  acknowledged-Ends, rejected_row-Ends, Ends, acknowledge_relay_publish-closes,
  reject_relay_publish-closes,
}

module _ (c : RelayClaim) (i : TaskIntent) (db : Db) (row : intent_at db c.attempt_id ≡ some i)
    (held : relay_matches i c ≡ true) where
  write_relayed-held :
      (change : TaskIntent → TaskIntent)
      → Ends change
      → intent_at (write_relayed change (intent_at db c.attempt_id) c db).1 c.attempt_id
        ≡ some (change i)
  unfolding write_relayed
  write_relayed-held change ends =
      rw (row, held)
        (rw intent_at-save_intent (
          rw
            ((eq_iff (change i).attempt_id c.attempt_id).1
              ((ends i c).0 ∙ attempt_id-intent_at c.attempt_id db row))
            refl))

  -- Under a claim that is current an acknowledgement and a rejection write their row.
  pub acknowledge_relay_publish-held :
      (now : ℕ)
      → intent_at (acknowledge_relay_publish c now db).1 c.attempt_id ≡ some (acknowledged now i)
  unfolding acknowledge_relay_publish
  acknowledge_relay_publish-held now = write_relayed-held (acknowledged now) (acknowledged-Ends now)

  pub reject_relay_publish-held :
      (code : String) (permanent : Bool) (base limit now : ℕ)
      → intent_at (reject_relay_publish c code permanent base limit now db).1 c.attempt_id
        ≡ some (rejected_row permanent code base limit now i)
  unfolding reject_relay_publish
  reject_relay_publish-held code permanent base limit now =
      write_relayed-held (rejected_row permanent code base limit now)
        (rejected_row-Ends permanent code base limit now)

-- The two ways in which a relay reports the end of a publication.
pub data Report : Type 0 where
  acknowledge : (now : ℕ) → Report
  reject : (code : String) (permanent : Bool) (base limit now : ℕ) → Report

unfoldable pub report : Report → RelayClaim → Db → Bool × Db
report (acknowledge now) c db = acknowledge_relay_publish c now db
report (reject code permanent base limit now) c db =
    reject_relay_publish c code permanent base limit now db

-- Once a report is accepted, any report that comes next on that intent, under this claim or another,
-- is refused and writes nothing.
pub report-closes :
    (first next : Report) (c c' : RelayClaim) (db : Db)
    → (report first c db).0 ≡ true
    → c'.attempt_id ≡ c.attempt_id
    → report next c' (report first c db).1 ≡ (false, (report first c db).1)
unfolding report
report-closes (acknowledge now) (acknowledge later) c c' db h same =
    (acknowledge_relay_publish-closes c now db c' "" false 0 0 later h same).0
report-closes (acknowledge now) (reject code permanent base limit later) c c' db h same =
    (acknowledge_relay_publish-closes c now db c' code permanent base limit later h same).1
report-closes (reject code permanent base limit now) (acknowledge later) c c' db h same =
    (reject_relay_publish-closes c code permanent base limit now db c' "" false 0 0 later h same).0
report-closes (reject code permanent base limit now) (reject code' permanent' base' limit' later) c
      c' db h same =
    (reject_relay_publish-closes c code permanent base limit now db c' code' permanent' base' limit'
      later h same).1
