-- ===== src/Tasks/Intents/Unique.antt =====
-- `create_task_intent` of task_handoff.py makes one intent for each logical task.
use crash_cap.Base.{
  ℕ, String, ◌≡◌, refl, ap, sym, ◌∙◌, true, Option, none, some, ◌⊎◌, inl, inr, List, Result, ok,
  arith, ◌>>=◌, Bool-cases,
}
use crash_cap.Base.Keys.{text_keys, pair_keys}
use crash_cap.Base.Table
use crash_cap.Tasks.Message.{Message, TaskError, TaskIdentity, same_payload}
use crash_cap.Tasks.Rows.{
  Db, TaskIntent, attempt_key, intent_key, logical_intent, save_intent, assert_compatible,
}
use crash_cap.Tasks.Rows.Views.{logical_intent-save_new}
use crash_cap.Tasks.Intents.{
  IntentOptions, Creation, admits, reuse, insert_intent, new_intent, with_rows, create_checked,
  create_found, check_message, create_task_intent,
}

-- What a call that returns an intent says of it and of the tables: the intent is the one under its
-- logical key, and its message is the caller's, or means the same.
abbrev pub Found : Creation → Message → String × String → TaskIntent → Type 0
Found out m key i =
    (out.0 ≡ ok i)
    → (logical_intent out.1 key ≡ some i) × ((i.message ≡ m) ⊎ (same_payload i.message m ≡ true))

reuse-Found :
    (o : Option TaskIntent) (m : Message) (identity : TaskIdentity) (db : Db)
    (key : String × String) (i : TaskIntent)
    → logical_intent db key ≡ o
    → Found (reuse o m identity, db) m key i
unfolding reuse assert_compatible
reuse-Found none m identity db key i h e = absurd (ground arith)
reuse-Found (some j) m identity db key i h e = ground arith

admits-none :
    (row : TaskIntent) (rows : List TaskIntent)
    → admits row rows ≡ true
    → (Table.row_at attempt_key row.attempt_id rows ≡ none)
      × (Table.row_at intent_key (intent_key row) rows ≡ none)
admits-none row rows h = ground arith

insert_intent-Found :
    (row : TaskIntent) (identity : TaskIdentity) (db : Db) (i : TaskIntent)
    → Found (insert_intent row row.message identity db) row.message (intent_key row) i
unfolding insert_intent
insert_intent-Found row identity db i = elim (Bool-cases (admits row db.intents)) [
  | inl t ↦ rw t (λ e. (saved t ∙ same e, inl (ap message_of (sym (same e)))))
  | inr f ↦ rw f (
      reuse-Found (logical_intent db (intent_key row)) row.message identity db (intent_key row) i
        refl)
]
  where
    message_of : Option TaskIntent → Message
    message_of o = elim o [ none ↦ row.message | some x ↦ x.message ]

    same : ◌≡◌ {A = Result TaskError TaskIntent} (ok row) (ok i) → some row ≡ some i
    same e = cc

    saved :
        admits row db.intents ≡ true
        → logical_intent (save_intent row db) (intent_key row) ≡ some row
    saved t = logical_intent-save_new row db (admits-none row db.intents t)

module _ (m : Message) (options : IntentOptions) (race : List TaskIntent) (now : ℕ) where
  create_checked-Found :
      (db : Db) (identity : TaskIdentity) (attempt version : String) (i : TaskIntent)
      → check_message m options.logical_key ≡ ok (identity, attempt, version)
      → Found
          (create_task_intent m options race now db)
          m
          (identity.task_type, identity.logical_key)
          i
  unfolding create_task_intent
  create_checked-Found db identity attempt version i h =
      rw (h, create_checked) (go (logical_intent db key) refl)
    where
      key : String × String
      key = (identity.task_type, identity.logical_key)

      go :
          (o : Option TaskIntent)
          → logical_intent db key ≡ o
          → Found (create_found o m options race now identity attempt version db) m key i
      go none e =
          insert_intent-Found (new_intent m identity attempt version options now) identity
            (with_rows race db) i
      go (some j) e = reuse-Found (some j) m identity db key i e

  -- A call that returns an intent leaves that intent under the logical key of the message, whatever
  -- other transactions committed meanwhile; the intent carries the message, or one that means the
  -- same.
  pub create_task_intent-Found :
      (db : Db) (identity : TaskIdentity) (attempt version : String) (i : TaskIntent)
      → check_message m options.logical_key ≡ ok (identity, attempt, version)
      → (create_task_intent m options race now db).0 ≡ ok i
      → (logical_intent
            (create_task_intent m options race now db).1
            (identity.task_type, identity.logical_key)
          ≡ some i)
        × ((i.message ≡ m) ⊎ (same_payload i.message m ≡ true))
  create_task_intent-Found db identity attempt version i h r =
      create_checked-Found db identity attempt version i h r

  -- A replay of the task, also by a caller with its own attempt, writes nothing: it returns the
  -- intent that is there, or raises because the messages differ.
  pub create_task_intent_replay :
      (db : Db) (identity : TaskIdentity) (attempt version : String) (i : TaskIntent)
      → check_message m options.logical_key ≡ ok (identity, attempt, version)
      → logical_intent db (identity.task_type, identity.logical_key) ≡ some i
      → create_task_intent m options race now db
        ≡ ((assert_compatible i m identity >>= (λ u. ok i)), db)
  unfolding create_task_intent
  create_task_intent_replay db identity attempt version i h e =
      rw (h, create_checked) (rw (e, create_found) refl)
