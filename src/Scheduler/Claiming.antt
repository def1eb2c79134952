-- ===== src/Scheduler/Claiming.antt =====
-- `claim_execution_slots` of analysis_scheduler.py.
pub mod Outcomes
pub mod Limits
pub mod Work
pub mod Eligibility
use crash_cap.Base.{
  ℕ, suc, ◌+◌, ◌-◌, min, String, Bool, true, false, not, ◌&&◌, ◌||◌, Option, none, some, List, [],
  ◌∷◌, ◌++◌, map, if◌then◌else◌, ltb, nat_eq, seconds, keep_if, length, Result, ok, err,
}
use crash_cap.Base.Keys.{◌==◌, text_keys}
use crash_cap.Base.Sorting.{sort_by, str_lt}
use crash_cap.Demand.{AnalysisDemand}
use crash_cap.Scheduler.Slots.{
  Slot, planning, Runs, reconcile_slots, SlotError, disabled, ExecutionSlotClaim,
}
use crash_cap.Scheduler.Ranking.{Ranked, ranked_rows}
use crash_cap.Scheduler.Rounds.{Progress, Grant, rounds}

-- The fields of `Settings` that the scheduler reads, less their prefix `automatic_analysis_`.
pub record Settings : Type 0 where
  pub enabled : Bool
  pub paused : Bool
  pub global_limit : ℕ
  pub capacity : ℕ
  pub release_limit : ℕ
  pub workspace_limit : ℕ
  pub enumeration_limit : ℕ
  pub planning_lease_seconds : ℕ

-- The one row of `analysis_scheduler_state`.
pub record SchedulerState : Type 0 where
  pub last_workspace_id : Option String
  pub updated_at : ℕ

pub record Tables : Type 0 where
  pub slots : List Slot
  pub demands : List AnalysisDemand
  pub scheduler : Option SchedulerState

-- _scheduler_state
unfoldable pub scheduler_state : ℕ → Option SchedulerState → SchedulerState
scheduler_state now none = record { last_workspace_id = none; updated_at = now }
scheduler_state now (some s) = s

-- `occupied`
abbrev pub slots_of : String → List Slot → List Slot
slots_of w slots = keep_if (λ s. s.workspace_id == w) slots

-- `max(0, ...)` is what subtraction on ℕ does.
abbrev pub available_slots : Settings → List Slot → ℕ
available_slots s active = min s.release_limit (min s.global_limit s.capacity - length active)

-- The entry of a workspace in `by_workspace`.
unfoldable pub queue_of : ℕ → List Slot → List Ranked → String → List String
queue_of limit active rows w =
    map (λ r. r.demand.id)
      (keep_if (λ r. r.demand.workspace_id == w && ltb (length (slots_of w active)) limit) rows)

unfoldable pub distinct : List String → List String
distinct [] = []
distinct (w ∷ ws) = w ∷ keep_if (λ v. not (v == w)) (distinct ws)

-- The keys of `by_workspace`.
unfoldable pub workspaces_of : ℕ → List Slot → List Ranked → List String
unfolding distinct
workspaces_of limit active rows =
    distinct (
      keep_if (λ w. ltb (length (slots_of w active)) limit) (map (λ r. r.demand.workspace_id) rows))

unfoldable pub rotate : Option String → List String → List String
rotate none ws = ws
rotate (some last) ws = keep_if (str_lt last) ws ++ keep_if (λ w. not (str_lt last w)) ws

-- `token n` is the n-th token of the call, "slot_" and a value of `new_ulid`.
abbrev claim_of : Settings → String → (ℕ → String) → ℕ → ℕ → Grant → ExecutionSlotClaim
claim_of s owner token now n g = record {
  demand_id = g.demand;
  workspace_id = g.workspace;
  claim_token = token n;
  owner_id = owner;
  lease_until = now + seconds s.planning_lease_seconds;
}

unfoldable pub claims_of :
    Settings → String → (ℕ → String) → ℕ → ℕ → List Grant → List ExecutionSlotClaim
claims_of s owner token now n [] = []
claims_of s owner token now n (g ∷ gs) =
    claim_of s owner token now n g ∷ claims_of s owner token now (suc n) gs

-- The row that is added with a claim.
unfoldable pub planned_slot : ℕ → ExecutionSlotClaim → Slot
planned_slot now c = record {
  demand_id = c.demand_id;
  workspace_id = c.workspace_id;
  claim_token = c.claim_token;
  owner_id = c.owner_id;
  state = planning;
  lease_until = some c.lease_until;
  run_id = none;
  created_at = now;
  updated_at = now;
}

-- `state.last_workspace_id` after the claims
abbrev last_served : Option String → List Grant → Option String
last_served last [] = last
last_served last (g ∷ gs) = last_served (some g.workspace) gs

abbrev pub Claiming : Type 0
Claiming = Result SlotError (List ExecutionSlotClaim) × Tables

abbrev pub starting : (String → ℕ) → (String → List String) → Progress
starting occupied queues = record {
  occupied = occupied;
  queues = queues;
  remaining = [];
  grants = [];
}

-- What a call sees after it has reconciled the slots.
module _ (s : Settings) (now : ℕ) (active : List Slot) (state : SchedulerState) (db : Tables) where
  abbrev pub rows_seen : List Ranked
  rows_seen =
      ranked_rows s.workspace_limit s.enumeration_limit state.last_workspace_id active now
        db.demands

  abbrev pub rotation_seen : List String
  rotation_seen =
      rotate state.last_workspace_id
        (sort_by str_lt (workspaces_of s.workspace_limit active rows_seen))

  abbrev pub start_seen : Progress
  start_seen =
      starting (λ w. length (slots_of w active)) (queue_of s.workspace_limit active rows_seen)

  module _ (owner : String) (token : ℕ → String) where
    unfoldable pub handed_out : Progress → Claiming
    unfolding claims_of planned_slot
    handed_out p =
        let claims = claims_of s owner token now 0 p.grants in
        let last = last_served state.last_workspace_id p.grants in
        (
          ok claims,
          record db {
            slots = active ++ map (planned_slot now) claims;
            scheduler = some (record { last_workspace_id = last; updated_at = now });
          },
        )

    unfoldable pub finished : Option Progress → Option Claiming
    unfolding handed_out
    finished none = none
    finished (some p) = some (handed_out p)

    unfoldable pub claim_from : Option Claiming
    unfolding finished rounds
    claim_from =
        let available = available_slots s active in
        let ended = rounds (suc available) available s.workspace_limit rotation_seen start_seen in
        if nat_eq available 0
        then some (ok [], record db { slots = active; scheduler = some state })
        else finished ended

-- `none` stands for rounds that run out of fuel, which never happens.
unfoldable pub claim_execution_slots :
    Runs → Settings → String → (ℕ → String) → ℕ → Tables → Option Claiming
unfolding claim_from scheduler_state
claim_execution_slots runs s owner token now db =
    if not s.enabled
    then some (err disabled, db)
    else if s.paused
    then some (ok [], db)
    else claim_from s now (reconcile_slots runs now db.slots) (scheduler_state now db.scheduler) db
        owner token
