-- ===== src/Demands/Changes/Restarts.antt =====
-- A manual restart (analysis_demands.py) happens once.
use crash_cap.Base.{ℕ, ◌+◌, String, ◌≡◌, refl, true, false, some, nat_eq, Result, ok, err, arith}
use crash_cap.Base.Keys.{◌==◌, text_keys}
use crash_cap.Base.Table
use crash_cap.Base.Table.{row_at-save_self, key-row_at}
use crash_cap.Demand.{AnalysisDemand}
use crash_cap.Demands.Rows.{Tables, DemandError, stale_demand, demand_key, demand_at, save_demand}
use crash_cap.Demands.Changes.{
  Switches, prepared_for, restartable, restarted, restart_exhausted_demand,
}

-- What a restart that is allowed has found.
record Allowed (s : Switches) (id workspace : String) (generation sequence : ℕ) (db : Tables)
    (d : AnalysisDemand) : Type 0 where
  on : s.enabled ≡ true
  going : s.paused ≡ false
  found : Table.row_at demand_key id db.demands ≡ some d
  scoped : (d.workspace_id == workspace) ≡ true
  generation_met : d.generation ≡ generation
  sequence_met : d.change_sequence ≡ sequence

restartable-Allowed :
    (s : Switches) (id workspace : String) (generation sequence now : ℕ) (db : Tables)
    (d : AnalysisDemand)
    → restartable s id workspace generation sequence now db ≡ ok d
    → Allowed s id workspace generation sequence db d
unfolding restartable demand_at
restartable-Allowed s id workspace generation sequence now db d e = record {
  on = ground (arith, e);
  going = ground (arith, e);
  found = ground (arith, e);
  scoped = ground (arith, e);
  generation_met = ground (arith, e);
  sequence_met = ground (arith, e);
}

outdated : (m n : ℕ) → m ≡ n → nat_eq (m + 1) n ≡ false
outdated m n e = ground (arith, e)

restarted_refused :
    (s : Switches) (id workspace : String) (generation sequence now later : ℕ) (db : Tables)
    (d : AnalysisDemand)
    → Allowed s id workspace generation sequence db d
    → restartable s id workspace generation sequence later
        (save_demand (prepared_for "manual" now d) db)
      ≡ err stale_demand
unfolding restartable demand_at save_demand
restarted_refused s id workspace generation sequence now later db d a =
    let key = key-row_at demand_key id db.demands a.found in
    let d' = prepared_for "manual" now d in
    rw (a.on, a.going, row_at-save_self demand_key d' id db.demands key, a.scoped)
      (rw (outdated d.change_sequence sequence a.sequence_met) (ground (arith)))

restarted_closes :
    (s : Switches) (id workspace : String) (generation sequence now later : ℕ) (db : Tables)
    (r : Result DemandError AnalysisDemand) (d : AnalysisDemand)
    → restartable s id workspace generation sequence now db ≡ r
    → (restarted r now db).0 ≡ ok d
    → restarted
        (restartable s id workspace generation sequence later (restarted r now db).1)
        later
        (restarted r now db).1
      ≡ (err stale_demand, (restarted r now db).1)
unfolding restarted
restarted_closes s id workspace generation sequence now later db (err e) d f h = ground arith
restarted_closes s id workspace generation sequence now later db (ok x) d f h =
    rw
      (restarted_refused s id workspace generation sequence now later db x
        (restartable-Allowed s id workspace generation sequence now db x f))
      refl

-- A restart that was granted is not granted again: the same request on the tables that it leaves is
-- refused as stale, and changes nothing.
pub restart_exhausted_demand-closes :
    (s : Switches) (id workspace : String) (generation sequence now later : ℕ) (db : Tables)
    (d : AnalysisDemand)
    → (restart_exhausted_demand s id workspace generation sequence now db).0 ≡ ok d
    → restart_exhausted_demand s id workspace generation sequence later
        (restart_exhausted_demand s id workspace generation sequence now db).1
      ≡ (err stale_demand, (restart_exhausted_demand s id workspace generation sequence now db).1)
unfolding restart_exhausted_demand
restart_exhausted_demand-closes s id workspace generation sequence now later db d e =
    restarted_closes s id workspace generation sequence now later db _ d refl e
