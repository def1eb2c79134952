-- ===== src/Tasks/Message/Shapes.antt =====
-- The task type and the queue of a message that keeps the contract of task-message-v3.schema.json.
use package.text.Mathlib.TextEquality.{eq_iff}
use crash_cap.Base.{
  String, ◌≡◌, refl, ◌⊎◌, inl, inr, Bool, true, false, ◌||◌, Option, none, some, arith, require, ok,
}
use crash_cap.Base.Keys.{◌==◌, text_keys}
use crash_cap.Tasks.Message.{
  TaskError, validation, validate_task_message, Message, Value, text, number, whole, other, get,
  is_const, text_where, analyze_contract, role_contract, verify_contract, symbols_contract,
  satisfies_contract,
}

-- Which task type goes with which queue.
pub data Shape : String → String → Type 0 where
  upload : (t q : String) → t ≡ "verify_upload" → q ≡ "verify" → Shape t q
  role : (t q : String) → t ≡ "dispatch_workspace_role" → q ≡ "ingest" → Shape t q
  symbols : (t q : String) → t ≡ "fetch_public_symbols" → q ≡ "public-symbols" → Shape t q
  small : (t q : String) → t ≡ "analyze_frozen_run" → q ≡ "dump-small" → Shape t q
  large : (t q : String) → t ≡ "analyze_frozen_run" → q ≡ "dump-large" → Shape t q

pub record Shaped (m : Message) : Type 0 where
  pub task_type : String
  pub queue : String
  pub has_type : get "task_type" m ≡ some (text task_type)
  pub has_queue : get "queue" m ≡ some (text queue)
  pub shape : Shape task_type queue

is_const-eq : (c : String) (o : Option Value) → is_const c o ≡ true → o ≡ some (text c)
is_const-eq c none h = ground (arith, h)
is_const-eq c (some (text s)) h = ground (arith, h, eq_iff s c)
is_const-eq c (some (number n)) h = ground (arith, h)
is_const-eq c (some (whole n s)) h = ground (arith, h)
is_const-eq c (some (other s)) h = ground (arith, h)

either_queue :
    (o : Option Value)
    → text_where (λ q. q == "dump-small" || q == "dump-large") o ≡ true
    → (o ≡ some (text "dump-small")) ⊎ (o ≡ some (text "dump-large"))
either_queue none h = ground (arith, h)
either_queue (some (text s)) h = ground (arith, h, eq_iff s "dump-small", eq_iff s "dump-large")
either_queue (some (number n)) h = ground (arith, h)
either_queue (some (whole n s)) h = ground (arith, h)
either_queue (some (other s)) h = ground (arith, h)

const_Shaped :
    (m : Message) (t q : String)
    → is_const t (get "task_type" m) ≡ true
    → is_const q (get "queue" m) ≡ true
    → Shape t q
    → Shaped m
const_Shaped m t q ht hq shape = record {
  task_type = t;
  queue = q;
  has_type = is_const-eq t _ ht;
  has_queue = is_const-eq q _ hq;
  shape = shape;
}

verify_contract-Shaped : (m : Message) → verify_contract m ≡ true → Shaped m
unfolding verify_contract
verify_contract-Shaped m h =
    const_Shaped m "verify_upload" "verify" (ground (arith, h)) (ground (arith, h))
      (upload _ _ refl refl)

symbols_contract-Shaped : (m : Message) → symbols_contract m ≡ true → Shaped m
unfolding symbols_contract
symbols_contract-Shaped m h =
    const_Shaped m "fetch_public_symbols" "public-symbols" (ground (arith, h)) (ground (arith, h))
      (symbols _ _ refl refl)

role_contract-Shaped : (m : Message) → role_contract m ≡ true → Shaped m
unfolding role_contract
role_contract-Shaped m h =
    const_Shaped m "dispatch_workspace_role" "ingest" (ground (arith, h)) (ground (arith, h))
      (role _ _ refl refl)

analyze_contract-Shaped : (m : Message) → analyze_contract m ≡ true → Shaped m
unfolding analyze_contract
analyze_contract-Shaped m h =
    let typed : get "task_type" m ≡ some (text "analyze_frozen_run") =
      is_const-eq "analyze_frozen_run" _ (ground (arith, h)) in
    elim (either_queue (get "queue" m) (ground (arith, h))) [
      | inl q ↦ record {
        task_type = "analyze_frozen_run";
        queue = "dump-small";
        has_type = typed;
        has_queue = q;
        shape = small _ _ refl refl;
      }
      | inr q ↦ record {
        task_type = "analyze_frozen_run";
        queue = "dump-large";
        has_type = typed;
        has_queue = q;
        shape = large _ _ refl refl;
      }
    ]

one_of :
    (a b c d : Bool) → (a || b || c || d) ≡ true → (a ≡ true) ⊎ (b ≡ true) ⊎ (c ≡ true) ⊎ (d ≡ true)
one_of true b c d h = inl refl
one_of false true c d h = inr (inl refl)
one_of false false true d h = inr (inr (inl refl))
one_of false false false d h = inr (inr (inr h))

-- A message that keeps the contract has a task type that is a text, and a queue that goes with it.
pub satisfies_contract-Shaped : (m : Message) → satisfies_contract m ≡ true → Shaped m
unfolding satisfies_contract
satisfies_contract-Shaped m h = elim (one_of _ _ _ _ h) [
  | inl a ↦ analyze_contract-Shaped m a
  | inr (inl r) ↦ role_contract-Shaped m r
  | inr (inr (inl v)) ↦ verify_contract-Shaped m v
  | inr (inr (inr s)) ↦ symbols_contract-Shaped m s
]

require-ok : (b : Bool) (e : TaskError) → require b e ≡ ok tt → b ≡ true
require-ok true e h = refl
require-ok false e h = ground (arith, h)

-- A message that `validate_task_message` lets pass keeps the contract.
pub validate_task_message-contract :
    (m : Message) → validate_task_message m ≡ ok tt → satisfies_contract m ≡ true
unfolding validate_task_message
validate_task_message-contract m h = require-ok (satisfies_contract m) validation h
