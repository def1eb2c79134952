-- ===== src/Scheduler/Claiming/Limits.antt =====
-- The limits that `claim_execution_slots` (analysis_scheduler.py) keeps.
use crash_cap.Base.{
  ℕ, suc, ◌+◌, ◌≤◌, min, String, ◌≡◌, refl, ap, ◌∙◌, Bool, true, ◌||◌, some, List, [], ◌∷◌, ◌++◌,
  map, leb, keep_if, length, length-append, length-keep_if-le, ok, err, arith,
}
use crash_cap.Base.Keys.{text_keys}
use crash_cap.Scheduler.Slots.{Slot, Runs, reconcile_slots, ExecutionSlotClaim}
use crash_cap.Scheduler.Rounds.{Progress, Grant, rounds}
use crash_cap.Scheduler.Rounds.Grants.{
  granted_to, Counts, Bounded, grant-Counts, grant-Bounded, rounds_keep, rounds-length,
}
use crash_cap.Scheduler.Claiming.{
  Settings, SchedulerState, Tables, slots_of, claims_of, planned_slot, Claiming, handed_out,
  claim_execution_slots, scheduler_state, starting,
}
use crash_cap.Scheduler.Claiming.Outcomes.{claim_outcome}

count-append {ℓ} :
    {A : Type ℓ} (p : A → Bool) (xs ys : List A)
    → length (keep_if p (xs ++ ys)) ≡ length (keep_if p xs) + length (keep_if p ys)
count-append p [] ys = omega arith
count-append p (x ∷ xs) ys = ground (arith, count-append p xs ys)

-- Dropping rows lowers every count.
keep_if-le {ℓ} :
    {A : Type ℓ} (p q : A → Bool) (xs : List A)
    → length (keep_if p (keep_if q xs)) ≤ length (keep_if p xs)
keep_if-le p q [] = omega arith
keep_if-le p q (x ∷ xs) = ground (arith, keep_if-le p q xs)

reconcile_slots-le :
    (runs : Runs) (now : ℕ) (v : String) (slots : List Slot)
    → length (slots_of v (reconcile_slots runs now slots)) ≤ length (slots_of v slots)
unfolding reconcile_slots
reconcile_slots-le runs now v slots = keep_if-le _ _ slots

reconcile_slots-length :
    (runs : Runs) (now : ℕ) (slots : List Slot)
    → length (reconcile_slots runs now slots) ≤ length slots
unfolding reconcile_slots
reconcile_slots-length runs now slots = length-keep_if-le _ slots

module _ (s : Settings) (owner : String) (token : ℕ → String) (now : ℕ) where
  -- The rows that are added for the claims.
  abbrev added : ℕ → List Grant → List Slot
  added n gs = map (planned_slot now) (claims_of s owner token now n gs)

  added-count :
      (v : String) (n : ℕ) (gs : List Grant)
      → length (slots_of v (added n gs)) ≡ length (granted_to v gs)
  unfolding claims_of planned_slot granted_to
  added-count v n [] = refl
  added-count v n (g ∷ gs) = ground (arith, added-count v (suc n) gs)

  added-length : (n : ℕ) (gs : List Grant) → length (added n gs) ≡ length gs
  unfolding claims_of
  added-length n [] = refl
  added-length n (g ∷ gs) = omega (arith, added-length (suc n) gs)

  claims_of-length :
      (n : ℕ) (gs : List Grant) → length (claims_of s owner token now n gs) ≡ length gs
  unfolding claims_of
  claims_of-length n [] = refl
  claims_of-length n (g ∷ gs) = omega (arith, claims_of-length (suc n) gs)

-- The claims that a call returns.
abbrev pub claims_in : Claiming → List ExecutionSlotClaim
claims_in (ok claims, db) = claims
claims_in (err e, db) = []

module _ (s : Settings) (owner : String) (token : ℕ → String) (now : ℕ) (active : List Slot)
    (state : SchedulerState) (db : Tables) where
  abbrev pub Handed : Progress → Claiming
  Handed = handed_out s now active state db owner token

  pub handed_out-count :
      (v : String) (p : Progress)
      → length (slots_of v (Handed p).1.slots)
        ≡ length (slots_of v active) + length (granted_to v p.grants)
  unfolding handed_out
  handed_out-count v p =
      count-append _ active (added s owner token now 0 p.grants)
      ∙ ap (λ n. length (slots_of v active) + n) (added-count s owner token now v 0 p.grants)

  handed_out-length : (p : Progress) → length (Handed p).1.slots ≡ length active + length p.grants
  unfolding handed_out
  handed_out-length p =
      length-append active (added s owner token now 0 p.grants)
      ∙ ap (λ n. length active + n) (added-length s owner token now 0 p.grants)

  pub handed_out-claims : (p : Progress) → length (claims_in (Handed p)) ≡ length p.grants
  unfolding handed_out
  handed_out-claims p = claims_of-length s owner token now 0 p.grants

module _ (limit available fuel : ℕ) (occupied : String → ℕ) (queues : String → List String)
    (ws : List String) (p : Progress)
    (run : rounds fuel available limit ws (starting occupied queues) ≡ some p) where
  pub rounds-Counts : Counts occupied p
  unfolding granted_to
  rounds-Counts =
      rounds_keep available limit (Counts occupied) (λ q h. h)
        (λ w d rest q e l a h. grant-Counts occupied limit w d rest q h) fuel ws _ p run
        (λ v. omega arith)

  rounds-Bounded : Bounded limit occupied p
  rounds-Bounded =
      rounds_keep available limit (Bounded limit occupied) (λ q h. h)
        (λ w d rest q e l a h. grant-Bounded occupied limit w d rest q l h) fuel ws _ p run
        (λ v. ground arith)

module _ (runs : Runs) (s : Settings) (owner : String) (token : ℕ → String) (now : ℕ)
    (db : Tables) where
  -- A workspace has at most `workspace_limit` slots after the call, or no more than before it.
  pub claim_execution_slots-workspace :
      (v : String) (r : Claiming)
      → claim_execution_slots runs s owner token now db ≡ some r
      → (leb (length (slots_of v r.1.slots)) s.workspace_limit
          || leb (length (slots_of v r.1.slots)) (length (slots_of v db.slots)))
        ≡ true
  claim_execution_slots-workspace v =
      claim_outcome runs s owner token now db
        (λ r.
          (leb (length (slots_of v r.1.slots)) s.workspace_limit
            || leb (length (slots_of v r.1.slots)) (length (slots_of v db.slots)))
          ≡ true)
        (λ a. ground arith) (λ a. ground arith)
        (λ a. ground (arith, reconcile_slots-le runs now v db.slots))
        (λ p e. ground (
          arith,
          reconcile_slots-le runs now v db.slots,
          rounds-Counts s.workspace_limit _ _ _ _ _ p e v,
          rounds-Bounded s.workspace_limit _ _ _ _ _ p e v,
          handed_out-count s owner token now (reconcile_slots runs now db.slots)
              (scheduler_state now db.scheduler) db v p,
        ))

  -- At most `release_limit` claims are made, and the slots after the call are at most the global limit
  -- and the capacity, or no more than before it.
  pub claim_execution_slots-global :
      (r : Claiming)
      → claim_execution_slots runs s owner token now db ≡ some r
      → (length (claims_in r) ≤ s.release_limit)
        × ((leb (length r.1.slots) (min s.global_limit s.capacity)
              || leb (length r.1.slots) (length db.slots))
            ≡ true)
  claim_execution_slots-global =
      claim_outcome runs s owner token now db
        (λ r.
          (length (claims_in r) ≤ s.release_limit)
          × ((leb (length r.1.slots) (min s.global_limit s.capacity)
                || leb (length r.1.slots) (length db.slots))
              ≡ true))
        (λ a. (omega arith, ground arith)) (λ a. (omega arith, ground arith))
        (λ a. (omega arith, ground (arith, reconcile_slots-length runs now db.slots)))
        (λ p e.
          let active = reconcile_slots runs now db.slots in
          let few = rounds-length _ _ _ _ _ p e (omega arith) in
          let state = scheduler_state now db.scheduler in
          (
            omega (arith, few, handed_out-claims s owner token now active state db p),
            ground (
              arith,
              few,
              reconcile_slots-length runs now db.slots,
              handed_out-length s owner token now active state db p,
            ),
          ))
