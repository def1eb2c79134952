-- ===== src/Scheduler/Slots.antt =====
-- The rows of `analysis_execution_slots`, their reconciliation, and the operations on one slot of
-- analysis_scheduler.py.
pub mod Fences
use crash_cap.Base.{
  ℕ, ◌+◌, String, Bool, true, false, not, ◌&&◌, ◌||◌, Option, none, some, List, [], ◌∷◌,
  if◌then◌else◌, is_some, after, seconds, keep_if, Result, ok, err,
}
use crash_cap.Base.Keys.{◌==◌, text_keys}
use crash_cap.Base.Table
use crash_cap.Lifecycle.{Status, is_terminal}

pub data SlotState : Type 0 where
  planning executing : SlotState

pub record Slot : Type 0 where
  pub demand_id : String
  pub workspace_id : String
  pub claim_token : String
  pub owner_id : String
  pub state : SlotState
  pub lease_until : Option ℕ
  pub run_id : Option String
  pub created_at : ℕ
  pub updated_at : ℕ

abbrev pub slot_key : Slot → String
slot_key s = s.demand_id

abbrev pub is_planning : SlotState → Bool
is_planning planning = true
is_planning executing = false

pub record ExecutionSlotClaim : Type 0 where
  pub demand_id : String
  pub workspace_id : String
  pub claim_token : String
  pub owner_id : String
  pub lease_until : ℕ

-- `session.get(AnalysisRun, slot.run_id)`: the status of the Run, if there is one.
abbrev pub Runs : Type 0
Runs = String → Option Status

-- `run is None or run.status in TERMINAL_STATES`
abbrev pub run_over : Option Status → Bool
run_over none = true
run_over (some s) = is_terminal s

abbrev pub run_of : Runs → Option String → Option Status
run_of runs none = none
run_of runs (some id) = runs id

-- A planning slot lives as long as its lease, an executing one as long as its Run.
unfoldable pub slot_lives : Runs → ℕ → Slot → Bool
slot_lives runs now s =
    if is_planning s.state then after s.lease_until now else not (run_over (run_of runs s.run_id))

-- _reconcile_slots: the rows that are left are the active ones. Their order plays no part.
unfoldable pub reconcile_slots : Runs → ℕ → List Slot → List Slot
unfolding slot_lives
reconcile_slots runs now slots = keep_if (slot_lives runs now) slots

-- The test that `bind_execution_slot` and `heartbeat_planning_slot` share.
abbrev pub held_by : Slot → ExecutionSlotClaim → ℕ → Bool
held_by s c now =
    is_planning s.state
    && s.claim_token == c.claim_token
    && s.owner_id == c.owner_id
    && after s.lease_until now

pub data SlotError : Type 0 where
  slot_lost disabled : SlotError  -- DemandError("ANALYSIS_SLOT_LOST"), ("AUTOMATIC_ANALYSIS_DISABLED")

unfoldable pub bound : String → ℕ → Slot → Slot
bound run_id now s = record s {
  state = executing;
  run_id = some run_id;
  lease_until = none;
  updated_at = now;
}

unfoldable pub bind_found :
    Option Slot
    → ExecutionSlotClaim
    → String
    → ℕ
    → List Slot
    → Result SlotError (Unit {0}) × List Slot
unfolding bound
bind_found none c run_id now slots = (err slot_lost, slots)
bind_found (some s) c run_id now slots =
    if held_by s c now
    then (ok tt, Table.save slot_key (bound run_id now s) slots)
    else (err slot_lost, slots)

unfoldable pub bind_execution_slot :
    ExecutionSlotClaim → String → ℕ → List Slot → Result SlotError (Unit {0}) × List Slot
unfolding bind_found
bind_execution_slot c run_id now slots =
    bind_found (Table.row_at slot_key c.demand_id slots) c run_id now slots

unfoldable pub renewed : ℕ → ℕ → Slot → Slot
renewed lease_seconds now s = record s {
  lease_until = some (now + seconds lease_seconds);
  updated_at = now;
}

unfoldable pub heartbeat_found :
    Option Slot → ℕ → ExecutionSlotClaim → ℕ → List Slot → Bool × List Slot
unfolding renewed
heartbeat_found none lease_seconds c now slots = (false, slots)
heartbeat_found (some s) lease_seconds c now slots =
    if held_by s c now
    then (true, Table.save slot_key (renewed lease_seconds now s) slots)
    else (false, slots)

unfoldable pub heartbeat_planning_slot : ℕ → ExecutionSlotClaim → ℕ → List Slot → Bool × List Slot
unfolding heartbeat_found
heartbeat_planning_slot lease_seconds c now slots =
    heartbeat_found (Table.row_at slot_key c.demand_id slots) lease_seconds c now slots

-- The condition of the `DELETE` of `release_planning_slot`; an expired lease does not matter there.
abbrev pub releasable : Slot → ExecutionSlotClaim → Bool
releasable s c =
    s.demand_id == c.demand_id
    && s.claim_token == c.claim_token
    && s.owner_id == c.owner_id
    && is_planning s.state

-- Whether a `DELETE ... RETURNING` found a row.
any_row : (Slot → Bool) → List Slot → Bool
any_row p [] = false
any_row p (s ∷ slots) = p s || any_row p slots

unfoldable pub delete_where : (Slot → Bool) → List Slot → Bool × List Slot
unfolding any_row
delete_where p slots = (any_row p slots, keep_if (λ s. not (p s)) slots)

unfoldable pub release_planning_slot : ExecutionSlotClaim → List Slot → Bool × List Slot
unfolding delete_where
release_planning_slot c slots = delete_where (λ s. releasable s c) slots

abbrev pub runs_for : String → Slot → Bool
runs_for run_id s =
    not (is_planning s.state) && (elim s.run_id [ none ↦ false | some r ↦ r == run_id ])

unfoldable pub release_execution_slot_for_run : String → List Slot → Bool × List Slot
unfolding delete_where
release_execution_slot_for_run run_id slots = delete_where (runs_for run_id) slots
