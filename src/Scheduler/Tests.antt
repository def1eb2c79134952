-- ===== src/Scheduler/Tests.antt =====
-- Runs of the scheduler (analysis_scheduler.py) on concrete tables, and its theorems at such tables.
use crash_cap.Base.{
  ℕ, ◌≤◌, min, String, ◌≡◌, refl, true, false, ◌||◌, none, some, List, [], ◌∷◌, ◌++◌, map, leb,
  length, All, if◌then◌else◌, ok, err,
}
use crash_cap.Base.Sorting.{sort_by, sort_onto, insert_sorted}
use crash_cap.Base.Keys.{text_keys}
use crash_cap.Base.Table.{row_at}
use crash_cap.Demand.{AnalysisDemand, DemandState}
use crash_cap.Scheduler.Slots.{
  Slot, planning, Runs, ExecutionSlotClaim, slot_lives, reconcile_slots, slot_lost, bind_found,
  bind_execution_slot, heartbeat_found, heartbeat_planning_slot,
}
use crash_cap.Scheduler.Slots.Fences.{bind_execution_slot-closes}
use crash_cap.Scheduler.Ranking.{eligible, workspace_rank, ranked_rows}
use crash_cap.Scheduler.Rounds.{grant, turn, pass, rounds}
use crash_cap.Scheduler.Claiming.{
  Settings, Tables, slots_of, queue_of, distinct, workspaces_of, rotate, claims_of, planned_slot,
  scheduler_state, finished, handed_out, claim_from, Claiming, claim_execution_slots,
}
use crash_cap.Scheduler.Claiming.Outcomes.{claim_execution_slots-ends}
use crash_cap.Scheduler.Claiming.Limits.{
  claim_execution_slots-workspace, claim_execution_slots-global,
}
use crash_cap.Scheduler.Claiming.Work.{
  claimed_for, ranked_for, claim_execution_slots-first, claim_execution_slots-exhausts,
}
use crash_cap.Scheduler.Claiming.Eligibility.{
  demand_key, GoodClaim, claim_execution_slots-Claimable,
}

abbrev demand : String → String → String → ℕ → AnalysisDemand
demand id workspace reason updated_at = record {
  id = id;
  occurrence_id = id;
  workspace_id = workspace;
  inspection_id = none;
  state = DemandState.coalescing;
  reason = reason;
  generation = 1;
  retry_attempt = 0;
  change_sequence = 1;
  planned_sequence = 0;
  index_revision = 0;
  first_event_at = some 1;
  last_event_at = some 1;
  not_before = some 5;
  created_at = 1;
  updated_at = updated_at;
}

abbrev slot : String → String → Slot
slot id workspace = record {
  demand_id = id;
  workspace_id = workspace;
  claim_token = "slot_0";
  owner_id = "me";
  state = planning;
  lease_until = some 60000000;
  run_id = none;
  created_at = 1;
  updated_at = 1;
}

abbrev no_runs : Runs
no_runs id = none

abbrev settings : Settings
settings = record {
  enabled = true;
  paused = false;
  global_limit = 4;
  capacity = 9;
  release_limit = 3;
  workspace_limit = 2;
  enumeration_limit = 10;
  planning_lease_seconds = 60;
}

abbrev tables : Tables
tables = record {
  slots = slot "d0" "a" ∷ record (slot "old" "b") { lease_until = some 3 } ∷ [];
  demands =
      demand "d0" "a" "new_dump" 1
      ∷ demand "d1" "a" "catalog" 2
      ∷ demand "d2" "a" "manual" 3
      ∷ demand "d3" "b" "catalog" 1
      ∷ demand "d4" "b" "catalog" 2
      ∷ demand "d5" "b" "catalog" 3
      ∷ [];
  scheduler = some (record { last_workspace_id = some "a"; updated_at = 1 });
}

abbrev token : ℕ → String
token n = if leb n 0 then "slot_x" else "slot_y"

abbrev claim : String → String → String → ExecutionSlotClaim
claim id workspace tok = record {
  demand_id = id;
  workspace_id = workspace;
  claim_token = tok;
  owner_id = "me";
  lease_until = 60000010;
}

-- Workspace b comes first, since a was served last; in a the manual demand comes first.
abbrev claims : List ExecutionSlotClaim
claims = claim "d3" "b" "slot_x" ∷ claim "d2" "a" "slot_y" ∷ claim "d4" "b" "slot_y" ∷ []

abbrev result : Claiming
result = (
  ok claims,
  record tables {
    slots = slot "d0" "a" ∷ map (planned_slot 10) claims;
    scheduler = some (record { last_workspace_id = some "b"; updated_at = 10 });
  },
)

claims_three : claim_execution_slots no_runs settings "me" token 10 tables ≡ some result
unfolding claim_execution_slots claim_from finished handed_out rounds pass turn grant ranked_rows
    eligible workspace_rank sort_by sort_onto insert_sorted reconcile_slots slot_lives queue_of
    workspaces_of distinct rotate claims_of scheduler_state row_at
claims_three = refl

claim_execution_slots-workspace_example :
    (leb (length (slots_of "a" result.1.slots)) 2
      || leb (length (slots_of "a" result.1.slots)) (length (slots_of "a" tables.slots)))
    ≡ true
claim_execution_slots-workspace_example =
    claim_execution_slots-workspace no_runs settings "me" token 10 tables "a" result claims_three

claim_execution_slots-global_example :
    (length claims ≤ 3)
    × ((leb (length result.1.slots) (min 4 9) || leb (length result.1.slots) (length tables.slots))
        ≡ true)
claim_execution_slots-global_example =
    claim_execution_slots-global no_runs settings "me" token 10 tables result claims_three

claim_execution_slots-first_example :
    (rest : List String) × (claimed_for "b" claims ++ rest
      ≡ ranked_for no_runs settings "me" token 10 tables "b")
claim_execution_slots-first_example =
    claim_execution_slots-first no_runs settings "me" token 10 tables "b" result claims_three

claim_execution_slots-ends_example :
    (r : Claiming) × (claim_execution_slots no_runs settings "me" token 10 tables ≡ some r)
claim_execution_slots-ends_example =
    claim_execution_slots-ends no_runs settings "me" token 10 tables

claim_execution_slots-exhausts_example :
    (leb 3 (length claims)
      || leb 2 (length (slots_of "b" result.1.slots))
      || leb
          (length (ranked_for no_runs settings "me" token 10 tables "b"))
          (length (claimed_for "b" claims)))
    ≡ true
unfolding ranked_rows eligible workspace_rank sort_by sort_onto insert_sorted reconcile_slots
    slot_lives scheduler_state row_at
claim_execution_slots-exhausts_example =
    claim_execution_slots-exhausts no_runs settings "me" token 10 tables "b" result refl refl refl
      claims_three

tables_keyed : All (λ d. row_at demand_key d.id tables.demands ≡ some d) tables.demands
unfolding row_at
tables_keyed = (refl, (refl, (refl, (refl, (refl, (refl, tt))))))

claim_execution_slots-Claimable_example :
    All (GoodClaim 2 (reconcile_slots no_runs 10 tables.slots) 10 tables.demands) claims
claim_execution_slots-Claimable_example =
    claim_execution_slots-Claimable no_runs settings "me" token 10 tables result tables_keyed
      claims_three

abbrev held : ExecutionSlotClaim
held = claim "d0" "a" "slot_0"

binds : (bind_execution_slot held "run" 10 tables.slots).0 ≡ ok tt
unfolding bind_execution_slot bind_found row_at
binds = refl

abbrev bound_slots : List Slot
bound_slots = (bind_execution_slot held "run" 10 tables.slots).1

bind_execution_slot-closes_example :
    (bind_execution_slot held "other" 11 bound_slots ≡ (err slot_lost, bound_slots))
    × (heartbeat_planning_slot 60 held 11 bound_slots ≡ (false, bound_slots))
bind_execution_slot-closes_example =
    bind_execution_slot-closes held held "run" "other" 10 11 60 tables.slots refl binds

beats : (heartbeat_planning_slot 60 held 10 tables.slots).0 ≡ true
unfolding heartbeat_planning_slot heartbeat_found row_at
beats = refl
