-- ===== src/Tasks/Intents/Stays.antt =====
-- An intent that task_handoff.py has made stays under its logical key when others are made.
use crash_cap.Base.{
  ℕ, String, ◌≡◌, refl, Bool, true, Option, none, some, is_some, List, [], ◌∷◌, ◌++◌, Bool-cases,
  inl, inr, arith, Result, ok, err, ◌>>=◌,
}
use crash_cap.Base.Keys.{text_keys, pair_keys}
use crash_cap.Base.Table.{row_at, save}
use crash_cap.Tasks.Message.{Message, TaskError, TaskIdentity}
use crash_cap.Tasks.Rows.{Db, TaskIntent, attempt_key, intent_key, logical_intent, save_intent}
use crash_cap.Tasks.Intents.{
  IntentOptions, Checked, admits, insert_intent, new_intent, with_rows, create_found,
  create_checked, check_message, create_task_intent, stage_task_message, staged,
}
use crash_cap.Tasks.Intents.Unique.{create_task_intent-Found}

-- There is an intent under a logical key.
abbrev pub has_intent : Db → String × String → Bool
has_intent db key = is_some (logical_intent db key)

row_at-append :
    (key : String × String) (rows more : List TaskIntent)
    → is_some (row_at intent_key key rows) ≡ true
    → is_some (row_at intent_key key (rows ++ more)) ≡ true
unfolding row_at
row_at-append key [] more h = ground (arith, h)
row_at-append key (x ∷ xs) more h = ground (arith, h, row_at-append key xs more)

row_at-save :
    (key : String × String) (row : TaskIntent) (rows : List TaskIntent)
    → is_some (row_at intent_key key rows) ≡ true
    → row_at attempt_key row.attempt_id rows ≡ none
    → is_some (row_at intent_key key (save attempt_key row rows)) ≡ true
unfolding row_at save
row_at-save key row [] h n = ground (arith, h)
row_at-save key row (x ∷ xs) h n = ground (arith, h, n, row_at-save key row xs)

admits-new :
    (row : TaskIntent) (rows : List TaskIntent)
    → admits row rows ≡ true
    → row_at attempt_key row.attempt_id rows ≡ none
admits-new row rows h = ground (arith, h)

module _ (key : String × String) where
  insert_intent-stays :
      (row : TaskIntent) (m : Message) (identity : TaskIdentity) (db : Db)
      → has_intent db key ≡ true
      → has_intent (insert_intent row m identity db).1 key ≡ true
  unfolding insert_intent save_intent logical_intent
  insert_intent-stays row m identity db h = elim (Bool-cases (admits row db.intents)) [
    | inl e ↦ rw e (row_at-save key row db.intents h (admits-new row db.intents e))
    | inr e ↦ rw e h
  ]

  create_found-stays :
      (o : Option TaskIntent) (m : Message) (options : IntentOptions) (race : List TaskIntent)
      (now : ℕ) (identity : TaskIdentity) (attempt version : String) (db : Db)
      → has_intent db key ≡ true
      → has_intent (create_found o m options race now identity attempt version db).1 key ≡ true
  unfolding create_found
  create_found-stays (some i) m options race now identity attempt version db h = h
  create_found-stays none m options race now identity attempt version db h =
      insert_intent-stays (new_intent m identity attempt version options now) m identity
        (with_rows race db)
        (unfold logical_intent in row_at-append key db.intents race (unfold logical_intent in h))

  create_checked-stays :
      (r : Result TaskError Checked) (m : Message) (options : IntentOptions)
      (race : List TaskIntent) (now : ℕ) (db : Db)
      → has_intent db key ≡ true
      → has_intent (create_checked r m options race now db).1 key ≡ true
  unfolding create_checked
  create_checked-stays (err e) m options race now db h = h
  create_checked-stays (ok (identity, attempt, version)) m options race now db h =
      create_found-stays (logical_intent db (identity.task_type, identity.logical_key)) m options
        race now identity attempt version db h

  pub stage_task_message-stays :
      (m : Message) (race : List TaskIntent) (now : ℕ) (db : Db)
      → has_intent db key ≡ true
      → has_intent (stage_task_message m none race now db).1 key ≡ true
  unfolding stage_task_message
  stage_task_message-stays m race now db h =
      create_checked-stays (check_message m none) m (staged none) race now db h

found-has :
    (db : Db) (key : String × String) {i : TaskIntent}
    → logical_intent db key ≡ some i
    → has_intent db key ≡ true
found-has db key h = rw h refl

module _ (m : Message) (race : List TaskIntent) (now : ℕ) (db : Db) (identity : TaskIdentity)
    (attempt version : String)
    (checks : check_message m none ≡ ok (identity, attempt, version)) where
  created-has :
      (r : Result TaskError TaskIntent) {staged_message : Message}
      → (create_task_intent m (staged none) race now db).0 ≡ r
      → (r >>= λ i. ok i.message) ≡ ok staged_message
      → has_intent
          (create_task_intent m (staged none) race now db).1
          (identity.task_type, identity.logical_key)
        ≡ true
  created-has (ok i) {staged_message} e h =
      found-has _ (identity.task_type, identity.logical_key)
        (create_task_intent-Found m (staged none) race now db identity attempt version i checks e).0
  created-has (err x) {staged_message} e h = absurd (ground (arith, h))

  -- Once a message is staged, there is an intent under its logical key.
  pub stage_task_message-has :
      {staged_message : Message}
      → (stage_task_message m none race now db).0 ≡ ok staged_message
      → has_intent
          (stage_task_message m none race now db).1
          (identity.task_type, identity.logical_key)
        ≡ true
  unfolding stage_task_message
  stage_task_message-has h = created-has _ refl h

create_checked-checked :
    (r : Result TaskError Checked) (m : Message) (options : IntentOptions) (race : List TaskIntent)
    (now : ℕ) (db : Db) {staged_message : Message}
    → ((create_checked r m options race now db).0 >>= λ i. ok i.message) ≡ ok staged_message
    → (x : Checked) × (r ≡ ok x)
unfolding create_checked
create_checked-checked (ok x) m options race now db {staged_message} h = (x, refl)
create_checked-checked (err e) m options race now db {staged_message} h = absurd (ground (arith, h))

-- A message that is staged has passed its checks.
pub stage_task_message-checked :
    (m : Message) (race : List TaskIntent) (now : ℕ) (db : Db) {staged_message : Message}
    → (stage_task_message m none race now db).0 ≡ ok staged_message
    → (x : Checked) × (check_message m none ≡ ok x)
unfolding stage_task_message
stage_task_message-checked m race now db h =
    create_checked-checked (check_message m none) m (staged none) race now db h
