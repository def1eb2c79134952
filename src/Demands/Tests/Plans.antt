-- ===== src/Demands/Tests/Plans.antt =====
-- A plan that is frozen (analysis_demands.py), and a demand through several calls.
use crash_cap.Base.{ℕ, ◌≡◌, refl, true, some, [], ◌∷◌, ok, arith}
use crash_cap.Base.Sorting.{insert_id, sorted_set}
use crash_cap.Base.Table.{row_at, save}
use crash_cap.Evidence.{one_of, is_digest, hex_text}
use crash_cap.Demand.{AnalysisDemand, preparing}
use crash_cap.FrozenInputs.{ModuleIdentity, Selection, reasons_of, verify_selection}
use crash_cap.Demands.Rows.{DumpInspection, Tables, live, demand_at, blob_at, save_demand}
use crash_cap.Demands.Changes.{note_change}
use crash_cap.Demands.Targets.{
  Digests, Plan, plan_checks, freezable, freeze_target, planned, next_generation, adopted,
  target_of,
}
use crash_cap.Demands.Targets.Replay.{freeze_target_repeats}
use crash_cap.Demands.Settlement.Budget.{settle, execution}
use crash_cap.Demands.History.{done, step, changes, settles, freezes, Grown, steps-Grown}
use crash_cap.Demands.Tests.{dump, crash, demand, settings, live_at_changes}

abbrev identity : ModuleIdentity
identity = record { code_id = some "c"; debug_id = some "e"; architecture = "x86_64" }

abbrev inspection : DumpInspection
inspection = record {
  id = "i";
  dump_blob_id = "b";
  inspector_version = "v";
  inspector_provenance = "p";
  dump_sha256 = "d";
  dump_size = 7;
  object_key = "k";
  object_sha256 = "s";
  modules = (0, identity) ∷ [];
}

abbrev selection : Selection
selection = record {
  module_index = 0;
  identity = identity;
  state = "unique";
  candidates_complete = true;
  candidate_pair_ids = "p" ∷ [];
  unavailable_pair_ids = [];
  selected_pair_id = some "p";
  reason = "unique";
}

abbrev plan : Plan
plan = record {
  manifest = record {
    catalog_revision = 4;
    dump_sha256 = "d";
    inspect_sha256 = "s";
    inspector_version = "v";
    selection_version = "1";
    modules = selection ∷ [];
  };
  manifest_object_key = "m";
  context_sha256 = "0123456789abcdef0123456789abcdef0123456789abcdef0123456789abcdef";
  cause = "manual";
}

abbrev inspected : AnalysisDemand
inspected = record (demand preparing 0) { inspection_id = some "i"; planned_sequence = 3 }

abbrev planning_tables : Tables
planning_tables = record {
  occurrences = crash ∷ [];
  blobs = dump ∷ [];
  demands = inspected ∷ [];
  inspections = inspection ∷ [];
  targets = [];
  revision = 4;
}

abbrev digests : Digests
digests = record {
  conforms = λ m. true;
  fingerprint = λ f. f.dump_sha256;
  digest = λ m. m.dump_sha256;
}

freezable_at :
    (now : ℕ)
    → live dump now ≡ true
    → freezable digests "a" 4 plan now planning_tables ≡ ok (inspected, inspection)
unfolding freezable plan_checks demand_at blob_at row_at verify_selection sorted_set insert_id
    reasons_of one_of is_digest hex_text
freezable_at now l = rw l refl

freeze_target_repeats_example :
    let first = freeze_target digests "a" 4 plan 10000000 planning_tables in
    let again = freeze_target digests "a" 4 plan 20000000 first.1 in
    (again.0 ≡ first.0) × (again.1.targets ≡ first.1.targets)
freeze_target_repeats_example =
    freeze_target_repeats digests "a" 4 plan 10000000 20000000 planning_tables inspected inspection
      (freezable_at 10000000 (live_at_changes 10000000 (omega arith)))
      (freezable_at 20000000 (live_at_changes 20000000 (omega arith))) refl

found_inspected : demand_at "a" planning_tables ≡ ok inspected
unfolding demand_at row_at
found_inspected = refl

abbrev frozen_then : AnalysisDemand
frozen_then = planned 4 4 20000000 (next_generation inspected)

freezing_leaves :
    demand_at "a" (freeze_target digests "a" 4 plan 20000000 planning_tables).1 ≡ ok frozen_then
unfolding freeze_target adopted target_of save_demand demand_at row_at save
freezing_leaves = rw (freezable_at 20000000 (live_at_changes 20000000 (omega arith))) refl

abbrev noted : AnalysisDemand
noted = note_change "role_change" dump 30000000 frozen_then

abbrev failed_then : AnalysisDemand
failed_then = settle settings (execution dump "manual" "TIMEOUT" true 40000000) noted

steps-Grown_example : Grown inspected failed_then
steps-Grown_example =
    steps-Grown settings inspected failed_then
      (step inspected frozen_then failed_then
        (freezes digests "a" 4 plan 20000000 planning_tables inspected frozen_then found_inspected
          freezing_leaves)
        (step frozen_then noted failed_then (changes "role_change" dump 30000000 frozen_then) (
          step noted failed_then failed_then
            (settles (execution dump "manual" "TIMEOUT" true 40000000) noted) (done failed_then))))
      (omega arith)
