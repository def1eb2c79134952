-- ===== src/Scheduler/Slots/Fences.antt =====
-- What a planning slot and its claim promise (analysis_scheduler.py).
use crash_cap.Base.{
  ℕ, ◌+◌, String, ◌≡◌, refl, true, false, Option, none, some, List, ltb, seconds, ok, err, arith,
  if◌then◌else◌,
}
use crash_cap.Base.Keys.{text_keys}
use crash_cap.Base.Table
use crash_cap.Base.Table.{row_at-save_self, key-row_at}
use crash_cap.Scheduler.Slots.{
  Slot, slot_key, ExecutionSlotClaim, slot_lost, held_by, bound, bind_found, bind_execution_slot,
  renewed, heartbeat_found, heartbeat_planning_slot,
}

bind_found_held :
    (s : Slot) (c : ExecutionSlotClaim) (run_id : String) (now : ℕ) (slots : List Slot)
    → (bind_found (some s) c run_id now slots).0 ≡ ok tt
    → held_by s c now ≡ true
unfolding bind_found
bind_found_held s c run_id now slots e = ground (arith, e)

bind_found-closes :
    (o : Option Slot) (c : ExecutionSlotClaim) (run_id : String) (now : ℕ) (slots : List Slot)
    → Table.row_at slot_key c.demand_id slots ≡ o
    → (bind_found o c run_id now slots).0 ≡ ok tt
    → (s : Slot) × (Table.row_at slot_key c.demand_id (bind_found o c run_id now slots).1
        ≡ some (bound run_id now s))
unfolding bind_found bound
bind_found-closes none c run_id now slots f e = ground arith
bind_found-closes (some s) c run_id now slots f e = rw (bind_found_held s c run_id now slots e) (
  s,
  row_at-save_self slot_key (bound run_id now s) c.demand_id slots
      (key-row_at slot_key c.demand_id slots f),
)

heartbeat_found_held :
    (s : Slot) (lease : ℕ) (c : ExecutionSlotClaim) (now : ℕ) (slots : List Slot)
    → (heartbeat_found (some s) lease c now slots).0 ≡ true
    → held_by s c now ≡ true
unfolding heartbeat_found
heartbeat_found_held s lease c now slots e = ground (arith, e)

heartbeat_found-renews :
    (o : Option Slot) (lease : ℕ) (c : ExecutionSlotClaim) (now : ℕ) (slots : List Slot)
    → Table.row_at slot_key c.demand_id slots ≡ o
    → (heartbeat_found o lease c now slots).0 ≡ true
    → (s : Slot) × (held_by s c now ≡ true)
      × (Table.row_at slot_key c.demand_id (heartbeat_found o lease c now slots).1
          ≡ some (renewed lease now s))
unfolding heartbeat_found renewed
heartbeat_found-renews none lease c now slots f e = ground arith
heartbeat_found-renews (some s) lease c now slots f e =
    let h = heartbeat_found_held s lease c now slots e in
    rw h (
      s,
      h,
      row_at-save_self slot_key (renewed lease now s) c.demand_id slots
          (key-row_at slot_key c.demand_id slots f),
    )

renewed_binds :
    (s : Slot) (c : ExecutionSlotClaim) (run_id : String) (lease now later : ℕ) (slots : List Slot)
    → held_by s c now ≡ true
    → ((bind_found (some (renewed lease now s)) c run_id later slots).0
        ≡ (if ltb later (now + seconds lease) then ok tt else err slot_lost))
unfolding bind_found renewed
renewed_binds s c run_id lease now later slots h = ground (arith, h)

bound_refuses :
    (s : Slot) (c : ExecutionSlotClaim) (run_id again : String) (now later lease : ℕ)
    (slots : List Slot)
    → (bind_found (some (bound run_id now s)) c again later slots ≡ (err slot_lost, slots))
      × (heartbeat_found (some (bound run_id now s)) lease c later slots ≡ (false, slots))
unfolding bound bind_found heartbeat_found
bound_refuses s c run_id again now later lease slots = (refl, refl)

-- A slot is bound once: after it neither the claim nor any other on the same demand binds or renews it.
pub bind_execution_slot-closes :
    (c d : ExecutionSlotClaim) (run_id again : String) (now later lease : ℕ) (slots : List Slot)
    → d.demand_id ≡ c.demand_id
    → (bind_execution_slot c run_id now slots).0 ≡ ok tt
    → (bind_execution_slot d again later (bind_execution_slot c run_id now slots).1
        ≡ (err slot_lost, (bind_execution_slot c run_id now slots).1))
      × (heartbeat_planning_slot lease d later (bind_execution_slot c run_id now slots).1
          ≡ (false, (bind_execution_slot c run_id now slots).1))
unfolding bind_execution_slot heartbeat_planning_slot
bind_execution_slot-closes c d run_id again now later lease slots k e =
    let (s, f) = bind_found-closes _ c run_id now slots refl e in
    rw (k, f) (bound_refuses s d run_id again now later lease _)

-- A renewed claim binds the slot exactly until its new lease ends.
pub heartbeat_planning_slot-binds :
    (c : ExecutionSlotClaim) (run_id : String) (lease now later : ℕ) (slots : List Slot)
    → (heartbeat_planning_slot lease c now slots).0 ≡ true
    → ((bind_execution_slot c run_id later (heartbeat_planning_slot lease c now slots).1).0
        ≡ (if ltb later (now + seconds lease) then ok tt else err slot_lost))
unfolding bind_execution_slot heartbeat_planning_slot
heartbeat_planning_slot-binds c run_id lease now later slots e =
    let (s, h, f) = heartbeat_found-renews _ lease c now slots refl e in
    rw f (renewed_binds s c run_id lease now later _ h)
