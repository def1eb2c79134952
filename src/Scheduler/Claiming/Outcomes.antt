-- ===== src/Scheduler/Claiming/Outcomes.antt =====
-- How a call of `claim_execution_slots` (analysis_scheduler.py) can end.
use mathlib.Core.Path.{subst}
use crash_cap.Base.{
  ℕ, suc, String, ◌≡◌, refl, true, false, Option, none, some, List, [], nat_eq, ok, err, inl, inr,
  Bool-cases, arith,
}
use crash_cap.Scheduler.Slots.{Slot, Runs, reconcile_slots, disabled}
use crash_cap.Scheduler.Rounds.{Progress, rounds}
use crash_cap.Scheduler.Rounds.Ending.{rounds_end}
use crash_cap.Scheduler.Claiming.{
  Settings, SchedulerState, Tables, scheduler_state, available_slots, Claiming, rotation_seen,
  start_seen, handed_out, finished, claim_from, claim_execution_slots,
}

abbrev Ends : (Claiming → Type 0) → Option Claiming → Type 0
Ends P none = Unit
Ends P (some r) = P r

-- What holds of a refused call, of an idle one, and of the end of the rounds holds of each result.
module _ (runs : Runs) (s : Settings) (owner : String) (token : ℕ → String) (now : ℕ) (db : Tables)
    (P : Claiming → Type 0) where
  abbrev pub active_slots : List Slot
  active_slots = reconcile_slots runs now db.slots

  abbrev pub state_read : SchedulerState
  state_read = scheduler_state now db.scheduler

  finished-Ends :
      (o : Option Progress)
      → ((p : Progress)
          → o ≡ some p
          → P (handed_out s now active_slots state_read db owner token p))
      → Ends P (finished s now active_slots state_read db owner token o)
  unfolding finished
  finished-Ends none f = tt
  finished-Ends (some p) f = f p refl

  pub claim_outcome :
      (s.enabled ≡ false → P (err disabled, db))
      → (s.paused ≡ true → P (ok [], db))
      → (nat_eq (available_slots s active_slots) 0 ≡ true
          → P (ok [], record db { slots = active_slots; scheduler = some state_read }))
      → ((p : Progress)
          → rounds
              (suc (available_slots s active_slots))
              (available_slots s active_slots)
              s.workspace_limit
              (rotation_seen s now active_slots state_read db)
              (start_seen s now active_slots state_read db)
            ≡ some p
          → P (handed_out s now active_slots state_read db owner token p))
      → (r : Claiming) → claim_execution_slots runs s owner token now db ≡ some r
      → P r
  unfolding claim_execution_slots claim_from
  claim_outcome refused paused idle ran r e = subst (Ends P) e (elim (Bool-cases s.enabled) [
    | inl a ↦ elim (Bool-cases s.paused) [
      | inl b ↦ rw (a, b) (paused b)
      | inr b ↦ elim (Bool-cases (nat_eq (available_slots s active_slots) 0)) [
        | inl c ↦ rw (a, b, c) (idle c)
        | inr c ↦ rw (a, b, c) (finished-Ends _ ran)
      ]
    ]
    | inr a ↦ rw a (refused a)
  ])

-- The rounds always end.
pub claim_execution_slots-ends :
    (runs : Runs) (s : Settings) (owner : String) (token : ℕ → String) (now : ℕ) (db : Tables)
    → (r : Claiming) × (claim_execution_slots runs s owner token now db ≡ some r)
unfolding claim_execution_slots claim_from finished
claim_execution_slots-ends runs s owner token now db =
    let active = reconcile_slots runs now db.slots in
    let state = scheduler_state now db.scheduler in
    let available = available_slots s active in
    let ended =
      rounds_end (suc available) available s.workspace_limit (rotation_seen s now active state db)
        (start_seen s now active state db) (omega arith) (λ m. omega arith) in
    elim (Bool-cases s.enabled) [
      | inl a ↦ elim (Bool-cases s.paused) [
        | inl b ↦ rw (a, b) (_, refl)
        | inr b ↦ elim (Bool-cases (nat_eq available 0)) [
          | inl c ↦ rw (a, b, c) (_, refl)
          | inr c ↦ rw (a, b, c, ended.1) (_, refl)
        ]
      ]
      | inr a ↦ rw a (_, refl)
    ]
