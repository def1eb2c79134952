-- ===== src/Tasks/Relay/Selection.antt =====
-- Which intent `claim_relay_intent` of task_handoff.py hands to a relay.
use crash_cap.Base.{
  ℕ, ◌+◌, String, ◌≡◌, refl, Bool, true, false, Option, some, List, [], ◌∷◌, Result, ok, err, arith,
  All, All-take, All-keep_if,
}
use crash_cap.Base.Sorting.{sort_by-All}
use crash_cap.Tasks.Message.{TaskError}
use package.text.Mathlib.TextEquality.{eq_iff}
use crash_cap.Tasks.Rows.{Db, TaskIntent, RelayClaim, intent_at, save_intent, relay_matches}
use crash_cap.Tasks.Rows.Views.{intent_at-save_intent}
use crash_cap.Tasks.Relay.{
  due, relay_before, candidates, check_intent, published_by, poison_candidate, claim_valid,
  after_check, claim_first, claim_relay_intent,
}

-- The primary key: each row is the one that its attempt finds.
abbrev pub IsKeyed : Db → Type 0
IsKeyed db = All (λ i. intent_at db i.attempt_id ≡ some i) db.intents

-- A row of the table that is due and that no other transaction has locked.
abbrev pub Claimable : (TaskIntent → Bool) → ℕ → Db → TaskIntent → Type 0
Claimable locked now db i =
    (intent_at db i.attempt_id ≡ some i) × (due now i ≡ true) × (locked i ≡ false)

candidates-Claimable :
    (locked : TaskIntent → Bool) (now : ℕ) (db : Db)
    → IsKeyed db
    → All (Claimable locked now db) (candidates locked now db.intents)
unfolding candidates
candidates-Claimable locked now db h = All-take (Claimable locked now db) 100 _ (
    sort_by-All relay_before (Claimable locked now db) _ (
      All-keep_if (λ i. intent_at db i.attempt_id ≡ some i) (Claimable locked now db) _
        (λ i k t. (k, ground arith, ground arith)) db.intents h))

-- What a claim of the relay says of the tables before and after it.
pub record Relayed (locked : TaskIntent → Bool) (owner : String) (lease now : ℕ) (db db' : Db)
    (c : RelayClaim) : Type 0 where
  pub row : TaskIntent
  pub claimable : Claimable locked now db row
  pub valid : check_intent row ≡ ok tt
  pub of_row : c.attempt_id ≡ row.attempt_id
  pub carries : c.message ≡ row.message
  pub next : c.generation ≡ row.relay_generation + 1
  pub left : intent_at db' row.attempt_id ≡ some (published_by owner lease now row)
  pub held : relay_matches (published_by owner lease now row) c ≡ true

module _ (locked : TaskIntent → Bool) (owner : String) (lease now : ℕ) (db : Db) where
  claim_valid-Relayed :
      (i : TaskIntent) (db0 : Db) (c : RelayClaim)
      → Claimable locked now db i
      → check_intent i ≡ ok tt
      → (claim_valid i owner lease now db0).0 ≡ some c
      → Relayed locked owner lease now db (claim_valid i owner lease now db0).1 c
  unfolding claim_valid
  claim_valid-Relayed i db0 c k v e = record {
    row = i;
    claimable = k;
    valid = v;
    of_row = ground arith;
    carries = ground arith;
    next = ground arith;
    left = rw intent_at-save_intent (rw ((eq_iff i.attempt_id i.attempt_id).1 refl));
    held = ground (arith, eq_iff owner c.owner_id);
  }

  after_check-Relayed :
      (i : TaskIntent) (r : Result TaskError (Unit {0})) (go_on : Option RelayClaim × Db) (db0 : Db)
      (c : RelayClaim)
      → Claimable locked now db i
      → check_intent i ≡ r
      → (go_on.0 ≡ some c → Relayed locked owner lease now db go_on.1 c)
      → (after_check r go_on (claim_valid i owner lease now db0)).0 ≡ some c
      → Relayed locked owner lease now db
          (after_check r go_on (claim_valid i owner lease now db0)).1
          c
  unfolding after_check
  after_check-Relayed i (err x) go_on db0 c k v rest e = rest e
  after_check-Relayed i (ok u) go_on db0 c k v rest e = claim_valid-Relayed i db0 c k v e

  claim_first-Relayed :
      (rows : List TaskIntent) (db0 : Db) (c : RelayClaim)
      → All (Claimable locked now db) rows
      → (claim_first owner lease now rows db0).0 ≡ some c
      → Relayed locked owner lease now db (claim_first owner lease now rows db0).1 c
  unfolding claim_first
  claim_first-Relayed [] db0 c h e = absurd (ground arith)
  claim_first-Relayed (i ∷ rest) db0 c h e =
      let db' = save_intent (poison_candidate i now) db0 in
      after_check-Relayed i (check_intent i) (claim_first owner lease now rest db') db0 c h.0 refl
        (claim_first-Relayed rest db' c h.1) e

-- What the relay claims is a row that is due, is not locked by another transaction, and passes every
-- check. The row is left publishing under the claim's owner, with a lease, and the claim carries its
-- message and a generation that is one more than the row's was.
pub claim_relay_intent-Relayed :
    (locked : TaskIntent → Bool) (owner : String) (lease now : ℕ) (db : Db) (c : RelayClaim)
    → IsKeyed db
    → (claim_relay_intent locked owner lease now db).0 ≡ some c
    → Relayed locked owner lease now db (claim_relay_intent locked owner lease now db).1 c
unfolding claim_relay_intent
claim_relay_intent-Relayed locked owner lease now db c h e =
    claim_first-Relayed locked owner lease now db _ db c (candidates-Claimable locked now db h) e
