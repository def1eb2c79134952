-- ===== src/Demands/Changes.antt =====
-- What brings work to a demand (analysis_demands.py): a new or restored dump, a manual restart, and a
-- change of the symbols or roles that its dump refers to.
pub mod Coalescing
pub mod Restarts
use crash_cap.Base.{
  ℕ, ◌+◌, min, String, Bool, true, false, not, ◌&&◌, Option, none, some, List, [], ◌∷◌,
  if◌then◌else◌, or_else, seconds, nat_eq, ltb, Result, ok, err, ◌>>=◌, ◌>>◌, require, present,
}
use crash_cap.Base.Keys.{◌==◌, text_keys}
use crash_cap.Demand.{
  AnalysisDemand, DemandState, preparing, coalescing, retry_exhausted, cannot_recompute,
}
use crash_cap.Demands.Rows.{
  DumpBlob, Occurrence, Tables, DemandError, disabled, stale_demand, not_exhausted,
  occurrence_not_found, scope_mismatch, dump_unavailable, demand_not_found, live, demand_at,
  occurrence_at, blob_at, save_demand, Change,
}

abbrev pub is_exhausted : DemandState → Bool
is_exhausted retry_exhausted = true
is_exhausted _ = false

abbrev pub cannot_be_computed : DemandState → Bool
cannot_be_computed cannot_recompute = true
cannot_be_computed _ = false

-- `demand.state in {"running", "paused"}`
abbrev pub is_held : DemandState → Bool
is_held DemandState.running = true
is_held DemandState.paused = true
is_held _ = false

-- A demand that starts over for `reason`.
abbrev pub prepared_for : String → ℕ → AnalysisDemand → AnalysisDemand
prepared_for reason now d = record d {
  change_sequence = d.change_sequence + 1;
  state = preparing;
  reason = reason;
  not_before = some now;
  updated_at = now;
  first_event_at = none;
  last_event_at = none;
}

-- The settings that a restart reads, less their prefix `automatic_analysis_`.
pub record Switches : Type 0 where
  pub enabled : Bool
  pub paused : Bool

-- What `restart_exhausted_demand` checks.
unfoldable pub restartable :
    Switches → String → String → ℕ → ℕ → ℕ → Tables → Result DemandError AnalysisDemand
restartable s id workspace generation sequence now db = do
  require s.enabled disabled
  require (not s.paused) DemandError.paused
  d ← demand_at id db
  require (d.workspace_id == workspace) demand_not_found
  require (nat_eq d.generation generation && nat_eq d.change_sequence sequence) stale_demand
  require (is_exhausted d.state) not_exhausted
  o ← present (occurrence_at d.occurrence_id db) occurrence_not_found
  b ← present (blob_at o.dump_blob_id db) scope_mismatch
  require (b.workspace_id == workspace) scope_mismatch
  require (live b now) dump_unavailable
  ok d

unfoldable pub restarted : Result DemandError AnalysisDemand → ℕ → Tables → Change
restarted (err e) now db = (err e, db)
restarted (ok d) now db = let d' = prepared_for "manual" now d in (ok d', save_demand d' db)

unfoldable pub restart_exhausted_demand : Switches → String → String → ℕ → ℕ → ℕ → Tables → Change
unfolding restarted
restart_exhausted_demand s id workspace generation sequence now db =
    restarted (restartable s id workspace generation sequence now db) now db

-- The demand of an occurrence, which is unique.
unfoldable pub demand_of : String → List AnalysisDemand → Option AnalysisDemand
demand_of occurrence [] = none
demand_of occurrence (d ∷ ds) =
    let rest = demand_of occurrence ds in if d.occurrence_id == occurrence then some d else rest

new_demand : String → Occurrence → Bool → ℕ → AnalysisDemand
new_demand id o alive now = record {
  id = id;
  occurrence_id = o.id;
  workspace_id = o.workspace_id;
  inspection_id = none;
  state = if alive then preparing else cannot_recompute;
  reason = if alive then "new_dump" else "DUMP_UNAVAILABLE";
  generation = 0;
  retry_attempt = 0;
  change_sequence = 1;
  planned_sequence = 0;
  index_revision = 0;
  first_event_at = none;
  last_event_at = none;
  not_before = some now;
  created_at = now;
  updated_at = now;
}

ensured : String → Occurrence → Bool → ℕ → Option AnalysisDemand → Tables → AnalysisDemand × Tables
unfolding new_demand
ensured id o alive now (some d) db =
    let d' = prepared_for "dump_restored" now d in
    if cannot_be_computed d.state && alive then (d', save_demand d' db) else (d, db)
ensured id o alive now none db = let d = new_demand id o alive now in (d, save_demand d db)

abbrev scoped_blob : String → Tables → Result DemandError (Occurrence × DumpBlob)
scoped_blob occurrence db = do
  o ← present (occurrence_at occurrence db) occurrence_not_found
  b ← present (blob_at o.dump_blob_id db) scope_mismatch
  require (b.workspace_id == o.workspace_id) scope_mismatch
  ok (o, b)

ensured_for : String → Result DemandError (Occurrence × DumpBlob) → ℕ → Tables → Change
unfolding ensured
ensured_for id (err e) now db = (err e, db)
ensured_for id (ok (o, b)) now db =
    let (d, db') = ensured id o (live b now) now (demand_of o.id db.demands) db in (ok d, db')

-- `id` is the new identifier that the call would draw.
unfoldable pub ensure_demand : String → String → ℕ → Tables → Change
unfolding ensured_for
ensure_demand id occurrence now db = ensured_for id (scoped_blob occurrence db) now db

-- `_utc(demand.first_event_at) if demand.first_event_at else now`
abbrev pub first_event : AnalysisDemand → ℕ → ℕ
first_event d now = or_else d.first_event_at now

-- A change that a demand of a live dump takes note of.
unfoldable pub coalesced : String → ℕ → AnalysisDemand → AnalysisDemand
coalesced cause now d =
    let first = first_event d now in
    let noted = record d {
      change_sequence = d.change_sequence + 1;
      updated_at = now;
      first_event_at = some first;
      last_event_at = some now;
    } in
    if ltb 0 d.generation
    then record noted {
      not_before = some (min (now + seconds 30) (first + seconds 60));
      state = if is_held d.state then d.state else coalescing;
      reason = cause;
    }
    else noted

abbrev unavailable : ℕ → AnalysisDemand → AnalysisDemand
unavailable now d = record d {
  change_sequence = d.change_sequence + 1;
  updated_at = now;
  state = cannot_recompute;
  reason = "DUMP_UNAVAILABLE";
  not_before = none;
}

-- _note_change, on the demand and the dump of its occurrence
unfoldable pub note_change : String → DumpBlob → ℕ → AnalysisDemand → AnalysisDemand
unfolding coalesced
note_change cause blob now d = if live blob now then coalesced cause now d else unavailable now d
