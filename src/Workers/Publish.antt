-- ===== src/Workers/Publish.antt =====
-- `enqueue` of DramatiqTaskDispatcher and `publish_task` (platform/api/crashcap_api/queueing.py), which
-- hand a task message to the broker. The broker is a parameter: what it raises, if anything.
pub mod Contract
use crash_cap.Base.{
  String, Bool, true, false, ◌||◌, Option, none, some, List, [], ◌∷◌, if◌then◌else◌, Result, ok,
  err, ◌>>=◌, ◌>>◌, present, require,
}
use crash_cap.Base.Keys.{◌==◌, text_keys}
use crash_cap.Tasks.Message.{Message, Value, text, get, value_eq, satisfies_contract}

-- An exception: the name of its class, and those of all the classes that it is an instance of.
pub record Raised : Type 0 where
  pub class_name : String
  pub classes : List String

abbrev pub api_error : Raised
api_error = record { class_name = "ApiError"; classes = "ApiError" ∷ [] }

abbrev pub value_error : Raised
value_error = record { class_name = "ValueError"; classes = "ValueError" ∷ [] }

abbrev pub key_error : Raised
key_error = record { class_name = "KeyError"; classes = "KeyError" ∷ "LookupError" ∷ [] }

-- The actors of tasks.py.
pub data Actor : Type 0 where
  verify_upload dispatch_workspace_role fetch_public_symbols analyze_frozen_small
        analyze_frozen_large :
      Actor

abbrev is_text : Option Value → String → Bool
is_text none s = false
is_text (some v) s = value_eq v (text s)

frozen_actor : Value → Result Raised Actor
frozen_actor queue =
    if value_eq queue (text "dump-small")
    then ok analyze_frozen_small
    else if value_eq queue (text "dump-large")
    then ok analyze_frozen_large
    else err value_error

actor_of : Message → Value → Result Raised Actor
unfolding frozen_actor get
actor_of m task_type =
    if value_eq task_type (text "verify_upload")
    then ok verify_upload
    else if value_eq task_type (text "dispatch_workspace_role")
    then ok dispatch_workspace_role
    else if value_eq task_type (text "fetch_public_symbols")
    then ok fetch_public_symbols
    else if value_eq task_type (text "analyze_frozen_run")
    then (present (get "queue" m) key_error >>= frozen_actor)
    else err value_error

-- `enqueue` up to the call of the broker.
unfoldable pub chosen_actor : Message → Result Raised Actor
unfolding actor_of get
chosen_actor m = do
  require (satisfies_contract m) api_error
  require (if is_text (get "queue" m) "dump-huge" then false else true) value_error
  task_type ← present (get "task_type" m) key_error
  actor_of m task_type

handed : (Actor → Message → Option Raised) → Message → Result Raised Actor → Option Raised
handed broker m (err e) = some e
handed broker m (ok actor) = broker actor m

-- `publish_task`: what it raises, if anything.
unfoldable pub publish_task : (Actor → Message → Option Raised) → Message → Option Raised
unfolding handed
publish_task broker m = handed broker m (chosen_actor m)
