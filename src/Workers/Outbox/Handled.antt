-- ===== src/Workers/Outbox/Handled.antt =====
-- What one call of `relay_once` of outbox_relay.py makes of the intent that it claims.
use mathlib.Core.Path.{subst}
use crash_cap.Base.{
  ℕ, ◌+◌, String, ◌≡◌, refl, sym, ◌∙◌, ap, Bool, true, false, Bool-cases, inl, inr, ◌⊎◌, arith,
  Option, none, some, seconds, leb, Result, ok, err, ◌>>◌, or_else, if◌then◌else◌,
}
use crash_cap.Tasks.Message.{satisfies_contract, validate_task_message}
use crash_cap.Tasks.Message.Shapes.{Shaped, validate_task_message-contract}
use crash_cap.Tasks.Rows.{
  Db, TaskIntent, IntentState, RelayClaim, intent_at, relay_matches, poison_intent,
}
use crash_cap.Tasks.Relay.{
  due, claim_relay_intent, acknowledge_relay_publish, acknowledged, rejected_row, backoff_delay,
  published_by, check_intent,
}
use crash_cap.Tasks.Relay.Selection.{IsKeyed, Relayed, claim_relay_intent-Relayed}
use crash_cap.Tasks.Relay.Fence.{acknowledge_relay_publish-held, reject_relay_publish-held}
use crash_cap.Workers.Publish.{Raised, publish_task, api_error}
use crash_cap.Workers.Publish.Contract.{actor_for, publish_task-contract}
use crash_cap.Workers.Outbox.{
  RelaySettings, World, is_permanent_publish_error, error_code, after_publish, after_claim,
  relay_once,
}

module _ (s : RelaySettings) (w : World) where
  -- How the call ends, and how it leaves the intent, after what the broker raised.
  pub data Verdict (raised : Option Raised) (out : Option Bool) (after : TaskIntent) : Type 0 where
    delivered :
        raised ≡ none
        → w.dies ≡ false
        → out ≡ some true
        → after.state ≡ IntentState.published
        → after.published_at ≡ some w.reported_at
        → after.relay_lease_until ≡ none
        → Verdict raised out after
    given_back :
        (e : Raised)
        → raised ≡ some e
        → is_permanent_publish_error e ≡ false
        → out ≡ some true
        → after.state ≡ IntentState.pending
        → after.due_at
          ≡ w.reported_at
            + seconds (
                backoff_delay s.relay_backoff_base_seconds s.relay_backoff_max_seconds
                  after.delivery_attempts)
        → Verdict raised out after
    given_up :
        (e : Raised)
        → raised ≡ some e
        → is_permanent_publish_error e ≡ true
        → out ≡ some true
        → after.state ≡ IntentState.dead
        → Verdict raised out after
    left_behind :
        raised ≡ none
        → w.dies ≡ true
        → out ≡ none
        → ((now : ℕ) → due now after ≡ leb (w.claimed_at + seconds s.relay_lease_seconds) now)
        → Verdict raised out after

  pub record Handled (c : RelayClaim) (raised : Option Raised) (out : Option Bool × Db)
      : Type 0 where
    pub after : TaskIntent
    pub found : intent_at out.1 c.attempt_id ≡ some after
    pub same_message : after.message ≡ c.message
    pub verdict : Verdict raised out.0 after

  module _ (upper : String → String) (owner : String) (c : RelayClaim) (row : TaskIntent)
      (db : Db) where
    abbrev held_row : TaskIntent
    held_row = published_by owner s.relay_lease_seconds w.claimed_at row

    -- The row that a rejection writes.
    abbrev rejected : Bool → String → TaskIntent
    rejected permanent code =
        rejected_row permanent code s.relay_backoff_base_seconds s.relay_backoff_max_seconds
          w.reported_at held_row

    rejected-message :
        (permanent : Bool) (code : String) → (rejected permanent code).message ≡ row.message
    unfolding rejected_row published_by poison_intent
    rejected-message true code = refl
    rejected-message false code = refl

    rejected-Verdict :
        (e : Raised) (permanent : Bool) (code : String)
        → is_permanent_publish_error e ≡ permanent
        → Verdict (some e) (some true) (rejected permanent code)
    unfolding rejected_row published_by poison_intent
    rejected-Verdict e true code p = given_up e refl p refl refl
    rejected-Verdict e false code p = given_back e refl p refl refl refl

    after_publish-Handled :
        (raised : Option Raised)
        → row.message ≡ c.message
        → intent_at db c.attempt_id ≡ some held_row
        → relay_matches held_row c ≡ true
        → Handled c raised (after_publish upper s w c raised db)
    unfolding after_publish
    after_publish-Handled (some e) m at h =
        let permanent = is_permanent_publish_error e in
        let code = error_code upper e in
        record {
          after = rejected permanent code;
          found =
              reject_relay_publish-held c held_row db at h code permanent
                s.relay_backoff_base_seconds s.relay_backoff_max_seconds w.reported_at;
          same_message = rejected-message permanent code ∙ m;
          verdict = rejected-Verdict e permanent code refl;
        }
    after_publish-Handled none m at h = elim (Bool-cases w.dies) [
      | inl d ↦
          subst (λ b. Handled c none (ended b)) (sym d)
            (record {
              after = held_row;
              found = at;
              same_message = unfold published_by in m;
              verdict = unfold published_by in left_behind refl d refl (λ now. refl);
            })
      | inr d ↦
          subst (λ b. Handled c none (ended b)) (sym d)
            (record {
              after = acknowledged w.reported_at held_row;
              found = acknowledge_relay_publish-held c held_row db at h w.reported_at;
              same_message = unfold acknowledged published_by in m;
              verdict = unfold acknowledged in delivered refl d refl refl refl refl;
            })
    ]
      where
        ended : Bool → Option Bool × Db
        ended b =
            if b then (none, db) else (some true, (acknowledge_relay_publish c w.reported_at db).1)

  after_claim-eq :
      (upper : String → String) (c : RelayClaim) (p : Option RelayClaim × Db)
      → p.0 ≡ some c
      → after_claim upper s w p
        ≡ after_publish upper s w c (publish_task w.broker c.message) (w.meanwhile p.1)
  unfolding after_claim
  after_claim-eq upper c (none, db) h = absurd (ground (arith, h))
  after_claim-eq upper c (some d, db) h =
      ap
        (λ x.
          after_publish upper s w (or_else x c) (publish_task w.broker (or_else x c).message)
            (w.meanwhile db))
        h

first-ok :
    {E : Type 0} (m : Result E (Unit {0})) (k : Result E (Unit {0})) → (m >> k) ≡ ok tt → m ≡ ok tt
first-ok (ok u) k h = refl
first-ok (err e) k h = ground (arith, h)

-- The message of an intent that passes the checks keeps the contract.
check_intent-contract :
    (i : TaskIntent) → check_intent i ≡ ok tt → satisfies_contract i.message ≡ true
unfolding check_intent
check_intent-contract i h =
    validate_task_message-contract i.message (first-ok (validate_task_message i.message) _ h)

false-ne-true : false ≡ true → ⊥
false-ne-true h = cc

module _ (upper : String → String) (s : RelaySettings) (w : World) (owner : String) (db : Db)
    (c : RelayClaim) (keyed : IsKeyed db) where
  abbrev claimed : Option RelayClaim × Db
  claimed = claim_relay_intent w.locked owner s.relay_lease_seconds w.claimed_at db

  reached-Handled :
      Relayed w.locked owner s.relay_lease_seconds w.claimed_at db claimed.1 c
      → claimed.0 ≡ some c
      → intent_at (w.meanwhile claimed.1) c.attempt_id ≡ intent_at claimed.1 c.attempt_id
      → ((satisfies_contract c.message ≡ true)
          × (m : Shaped c.message) × (publish_task w.broker c.message
              ≡ w.broker (actor_for m.shape) c.message))
        ⊎ ((satisfies_contract c.message ≡ false)
            × (publish_task w.broker c.message ≡ some api_error))
      → (m : Shaped c.message) × Handled s w c
          (w.broker (actor_for m.shape) c.message)
          (relay_once upper s w owner db)
  unfolding relay_once
  reached-Handled r h same (inl (_, m, eq)) = (
    m,
    subst (λ raised. Handled s w c raised (after_claim upper s w claimed)) eq
        (subst (Handled s w c (publish_task w.broker c.message))
          (sym (after_claim-eq s w upper c claimed h))
          (after_publish-Handled s w upper owner c r.row (w.meanwhile claimed.1)
            (publish_task w.broker c.message) (sym r.carries)
            (same ∙ (ap (intent_at claimed.1) r.of_row ∙ r.left)) r.held)),
  )
  reached-Handled r h same (inr (f, eq)) = absurd (
      false-ne-true
        (sym f ∙ (ap satisfies_contract r.carries ∙ check_intent-contract r.row r.valid)))

  -- If `relay_once` claims an intent, no other transaction holds it at that instant, it is due, and its
  -- message reaches the broker with the actor of its type. If nobody else changes the intent until the report,
  -- it is left published if the broker took the message, pending until the wait is over if the error is
  -- transient, and dead if it is permanent; if the process dies first, the intent is due again from the
  -- end of the relay's lease on.
  pub relay_once-Handled :
      (claim_relay_intent w.locked owner s.relay_lease_seconds w.claimed_at db).0 ≡ some c
      → (let db' = (claim_relay_intent w.locked owner s.relay_lease_seconds w.claimed_at db).1 in
          intent_at (w.meanwhile db') c.attempt_id ≡ intent_at db' c.attempt_id)
      → (m : Shaped c.message) × Handled s w c
          (w.broker (actor_for m.shape) c.message)
          (relay_once upper s w owner db)
  relay_once-Handled h same =
      let r =
        claim_relay_intent-Relayed w.locked owner s.relay_lease_seconds w.claimed_at db c keyed h in
      reached-Handled r h same (publish_task-contract w.broker c.message)
