-- ===== src/Workers/Outbox.antt =====
-- platform/worker/crashcap_worker/outbox_relay.py: `relay_once` over the relay operations of
-- task_handoff.py. What happens outside of its transactions is an argument of type World.
pub mod Handled
use crash_cap.Base.{
  ℕ, String, Bool, true, false, ◌||◌, Option, none, some, List, [], ◌∷◌, if◌then◌else◌, ◌<>◌,
}
use crash_cap.Base.Keys.{◌==◌, text_keys}
use crash_cap.Tasks.Message.{Message}
use crash_cap.Tasks.Rows.{Db, TaskIntent, RelayClaim, short_code}
use crash_cap.Tasks.Relay.{claim_relay_intent, acknowledge_relay_publish, reject_relay_publish}
use crash_cap.Workers.Publish.{Raised, Actor, publish_task}

pub record RelaySettings : Type 0 where
  pub relay_lease_seconds : ℕ
  pub relay_backoff_base_seconds : ℕ
  pub relay_backoff_max_seconds : ℕ

-- What a call meets: the rows that other transactions have locked and the instant when it claims; what
-- the broker raises; what other transactions do until the next one of this call; whether the process
-- dies after the publication, where `after_publish` stands; and the instant of the report.
pub record World : Type 0 where
  pub locked : TaskIntent → Bool
  pub claimed_at : ℕ
  pub broker : Actor → Message → Option Raised
  pub meanwhile : Db → Db
  pub dies : Bool
  pub reported_at : ℕ

abbrev permanent_class : String → Bool
permanent_class c =
    c == "ApiError"
    || c == "KeyError"
    || c == "TaskReceiptError"
    || c == "TypeError"
    || c == "ValueError"

any_permanent : List String → Bool
any_permanent [] = false
any_permanent (c ∷ cs) = permanent_class c || any_permanent cs

-- `_is_permanent_publish_error`
unfoldable pub is_permanent_publish_error : Raised → Bool
unfolding any_permanent
is_permanent_publish_error error = any_permanent error.classes

-- `_error_code`; `upper` is the method of texts.
unfoldable pub error_code : (String → String) → Raised → String
unfolding is_permanent_publish_error
error_code upper error = short_code (
    (if is_permanent_publish_error error then "PERMANENT" else "TRANSIENT")
    <> "_"
    <> upper error.class_name)

module _ (upper : String → String) (s : RelaySettings) (w : World) where
  -- The call after the publication; `none` if the process dies.
  unfoldable pub after_publish : RelayClaim → Option Raised → Db → Option Bool × Db
  unfolding error_code
  after_publish c (some error) db = (
    some true,
    (reject_relay_publish c (error_code upper error) (is_permanent_publish_error error)
        s.relay_backoff_base_seconds s.relay_backoff_max_seconds w.reported_at db).1,
  )
  after_publish c none db =
      if w.dies then (none, db) else (some true, (acknowledge_relay_publish c w.reported_at db).1)

  unfoldable pub after_claim : Option RelayClaim × Db → Option Bool × Db
  unfolding after_publish
  after_claim (none, db) = (some false, db)
  after_claim (some c, db) = after_publish c (publish_task w.broker c.message) (w.meanwhile db)

  -- `relay_once`: whether a due row was handled.
  unfoldable pub relay_once : String → Db → Option Bool × Db
  unfolding after_claim
  relay_once owner db =
      after_claim (claim_relay_intent w.locked owner s.relay_lease_seconds w.claimed_at db)
