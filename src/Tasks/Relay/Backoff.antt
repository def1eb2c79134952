-- ===== src/Tasks/Relay/Backoff.antt =====
-- The relay's waits and its fence (task_handoff.py).
use crash_cap.Base.{
  ℕ, ◌+◌, ◌*◌, ◌^◌, ◌≤◌, min, String, ◌≡◌, refl, Bool, true, false, Option, none, some, inl, inr,
  arith, Bool-cases, ◌∙◌,
}
use native.Mathlib.Nat.{pow-le-pow_right}
use package.text.Mathlib.TextEquality.{eq_iff}
use crash_cap.Tasks.Rows.{Db, TaskIntent, RelayClaim, intent_at, relay_matches, poison_intent}
use crash_cap.Tasks.Rows.Views.{intent_at-save_intent, attempt_id-intent_at}
use crash_cap.Tasks.Relay.{
  exponent, backoff_delay, write_relayed, acknowledged, acknowledge_relay_publish, rejected_row,
  reject_relay_publish,
}

scaled_mono : (base x y : ℕ) → x ≤ y → base * x ≤ base * y
scaled_mono base x y h = grind arith

doubling_mono : (base i j : ℕ) → i ≤ j → base * 2 ^ i ≤ base * 2 ^ j
doubling_mono base i j h = scaled_mono base _ _ (pow-le-pow_right (omega arith) h)

-- The wait never passes the limit, is at least the base where the limit allows it, and does not
-- shrink from one attempt to the next.
pub backoff_delay_bounds :
    (base limit attempts : ℕ)
    → (backoff_delay base limit attempts ≤ limit)
      × (min limit base ≤ backoff_delay base limit attempts)
      × (backoff_delay base limit attempts ≤ backoff_delay base limit (attempts + 1))
unfolding backoff_delay
backoff_delay_bounds base limit attempts =
    let least : base * 2 ^ 0 ≤ base * 2 ^ exponent attempts =
      doubling_mono base 0 (exponent attempts) (omega arith) in
    let next : base * 2 ^ exponent attempts ≤ base * 2 ^ exponent (attempts + 1) =
      doubling_mono base (exponent attempts) (exponent (attempts + 1)) (omega arith) in
    (omega arith, omega arith, omega arith)

-- A write under a relay claim that leaves no relay in charge ends every claim on the intent.
abbrev pub Ends : (TaskIntent → TaskIntent) → Type 0
Ends change =
    (i : TaskIntent) (c : RelayClaim)
    → ((change i).attempt_id ≡ i.attempt_id) × (relay_matches (change i) c ≡ false)

write_relayed-refused :
    (change : TaskIntent → TaskIntent) (i : TaskIntent) (c : RelayClaim) (db : Db)
    → relay_matches i c ≡ false
    → write_relayed change (some i) c db ≡ (false, db)
unfolding write_relayed
write_relayed-refused change i c db h = rw h

write_relayed-intent_at :
    (change : TaskIntent → TaskIntent) (o : Option TaskIntent) (c : RelayClaim) (db : Db)
    → Ends change
    → intent_at db c.attempt_id ≡ o
    → (write_relayed change o c db).0 ≡ true
    → (i : TaskIntent) × (intent_at (write_relayed change o c db).1 c.attempt_id ≡ some (change i))
unfolding write_relayed
write_relayed-intent_at change none c db ends e h = absurd (ground arith)
write_relayed-intent_at change (some i) c db ends e h = elim (Bool-cases (relay_matches i c)) [
  | inl t ↦
      (i, rw t (rw intent_at-save_intent (rw ((eq_iff (change i).attempt_id c.attempt_id).1 own))))
  | inr f ↦ absurd (ground arith)
]
  where
    own : (change i).attempt_id ≡ c.attempt_id
    own = (ends i c).0 ∙ attempt_id-intent_at c.attempt_id db e

pub acknowledged-Ends : (now : ℕ) → Ends (acknowledged now)
unfolding acknowledged
acknowledged-Ends now i c = (refl, refl)

pub rejected_row-Ends :
    (permanent : Bool) (code : String) (base limit now : ℕ)
    → Ends (rejected_row permanent code base limit now)
unfolding rejected_row poison_intent
rejected_row-Ends true code base limit now i c = (refl, refl)
rejected_row-Ends false code base limit now i c = (refl, refl)

Ends-closed :
    (change : TaskIntent → TaskIntent) (i : TaskIntent) (db : Db) (attempt : String)
    → Ends change
    → intent_at db attempt ≡ some (change i)
    → (c : RelayClaim) (code : String) (permanent : Bool) (base limit now : ℕ)
    → c.attempt_id ≡ attempt
    → (acknowledge_relay_publish c now db ≡ (false, db))
      × (reject_relay_publish c code permanent base limit now db ≡ (false, db))
unfolding acknowledge_relay_publish reject_relay_publish
Ends-closed change i db attempt ends h c code permanent base limit now e = (
  rw at_row (write_relayed-refused (acknowledged now) (change i) c db (ends i c).1),
  rw at_row (
      write_relayed-refused (rejected_row permanent code base limit now) (change i) c db
        (ends i c).1),
)
  where
    at_row : intent_at db c.attempt_id ≡ some (change i)
    at_row = rw e h

-- Once the acknowledgement of a publication is accepted, any acknowledgement and any rejection that
-- comes next on that intent, under whatever claim, is refused and writes nothing.
pub acknowledge_relay_publish-closes :
    (c : RelayClaim) (now : ℕ) (db : Db) (c' : RelayClaim) (code : String) (permanent : Bool)
    (base limit later : ℕ)
    → (acknowledge_relay_publish c now db).0 ≡ true
    → c'.attempt_id ≡ c.attempt_id
    → let db' = (acknowledge_relay_publish c now db).1 in
      (acknowledge_relay_publish c' later db' ≡ (false, db'))
      × (reject_relay_publish c' code permanent base limit later db' ≡ (false, db'))
unfolding acknowledge_relay_publish
acknowledge_relay_publish-closes c now db c' code permanent base limit later h same =
    let (i, row) =
      write_relayed-intent_at (acknowledged now) (intent_at db c.attempt_id) c db
        (acknowledged-Ends now) refl h in
    Ends-closed (acknowledged now) i _ c.attempt_id (acknowledged-Ends now) row c' code permanent
      base limit later same

-- So does a rejection that is accepted, permanent or not.
pub reject_relay_publish-closes :
    (c : RelayClaim) (code : String) (permanent : Bool) (base limit now : ℕ) (db : Db)
    (c' : RelayClaim) (code' : String) (permanent' : Bool) (base' limit' later : ℕ)
    → (reject_relay_publish c code permanent base limit now db).0 ≡ true
    → c'.attempt_id ≡ c.attempt_id
    → let db' = (reject_relay_publish c code permanent base limit now db).1 in
      (acknowledge_relay_publish c' later db' ≡ (false, db'))
      × (reject_relay_publish c' code' permanent' base' limit' later db' ≡ (false, db'))
unfolding reject_relay_publish
reject_relay_publish-closes c code permanent base limit now db c' code' permanent' base' limit'
      later h same =
    let change = rejected_row permanent code base limit now in
    let ends = rejected_row-Ends permanent code base limit now in
    let (i, row) = write_relayed-intent_at change (intent_at db c.attempt_id) c db ends refl h in
    Ends-closed change i _ c.attempt_id ends row c' code' permanent' base' limit' later same
