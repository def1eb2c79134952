-- ===== src/Demands/Tests/Pages.antt =====
-- A role event that reaches two demands on two pages (analysis_demands.py).
use crash_cap.Base.{String, ◌≡◌, refl, false, none, some, [], ◌∷◌, ok}
use crash_cap.Base.Sorting.{insert_id, sorted_set}
use crash_cap.Base.Table.{row_at}
use crash_cap.Demand.{AnalysisDemand, DemandState}
use crash_cap.Demands.Rows.{live, demand_at, Occurrence, Tables, occurrence_at, blob_at}
use crash_cap.Demands.Changes.{demand_of}
use crash_cap.Demands.Fanout.{
  RoleEvent, DumpSymbolReference, Feed, FanoutPage, cursor_of, role_at, concerns, affected_ids,
  noted, note_each, next_after, paged, fanned_out, for_workspace, fanout_checks,
  fanout_workspace_role_next,
}
use crash_cap.Demands.Fanout.Coverage.{Covers, fanout_workspace_role_next-Covers}
use crash_cap.Demands.Inspections.{
  InspectionEvidence, InspectionTexts, subject, inspected_as, referred, registered_for,
  register_inspection,
}
use crash_cap.Demands.Tests.{dump, demand}

abbrev event : RoleEvent
event = record {
  workspace_id = "w";
  version = 1;
  code_id = "c";
  debug_id = "e";
  architecture = "x86_64";
}

abbrev reference : String → DumpSymbolReference
reference occurrence = record {
  occurrence_id = occurrence;
  module_index = 0;
  inspection_id = "i";
  code_id = some "c";
  debug_id = some "e";
  architecture = "x86_64";
}

abbrev feed : Feed
feed = record {
  workspaces = record { id = "w"; module_role_version = 1 } ∷ [];
  roles = event ∷ [];
  references = reference "o2" ∷ reference "o1" ∷ [];
  cursors = [];
}

abbrev of_occurrence : String → String → AnalysisDemand
of_occurrence id occurrence = record (demand DemandState.updated 0) {
  id = id;
  occurrence_id = occurrence;
  inspection_id = some "i";
}

abbrev occurrence : String → Occurrence
occurrence id = record { id = id; workspace_id = "w"; dump_blob_id = "b" }

abbrev two_demands : Tables
two_demands = record {
  occurrences = occurrence "o1" ∷ occurrence "o2" ∷ [];
  blobs = dump ∷ [];
  demands = of_occurrence "a2" "o2" ∷ of_occurrence "a1" "o1" ∷ [];
  inspections = [];
  targets = [];
  revision = 1;
}

abbrev first_page : FanoutPage
first_page = record {
  revision = 1;
  affected = "o1" ∷ [];
  event_complete = false;
  caught_up = false;
}

turned : (fanout_workspace_role_next 10000000 "w" 1 feed two_demands).0 ≡ ok first_page
unfolding fanout_workspace_role_next fanout_checks for_workspace fanned_out paged note_each noted
    affected_ids concerns sorted_set insert_id cursor_of role_at row_at demand_of occurrence_at
    blob_at next_after
turned = refl

fanout_workspace_role_next-Covers_example :
    Covers "w" feed two_demands event first_page
      (fanout_workspace_role_next 10000000 "w" 1 feed two_demands).1.0
unfolding cursor_of role_at row_at
fanout_workspace_role_next-Covers_example =
    fanout_workspace_role_next-Covers "w" 10000000 1 event feed two_demands first_page refl turned

abbrev inspection : InspectionEvidence
inspection = record {
  dump_sha256 = "d";
  dump_size = 7;
  inspector_version = "inspect-v0.1";
  inspector_provenance = "core";
  object_key = "k";
  object_sha256 = "s";
  modules = (0, record { code_id = some "c"; debug_id = none; architecture = "x86_64" }) ∷ [];
}

abbrev texts : InspectionTexts
texts = record { lower = λ t. t; digest = λ ts. "new" }

-- The references of the occurrence are replaced, those of another one stay.
registered_references :
    (register_inspection texts "a1" inspection 10000000 feed two_demands).1.0.references
    ≡ reference "o2" ∷ record (reference "o1") { inspection_id = "new"; debug_id = none } ∷ []
unfolding register_inspection registered_for subject inspected_as referred demand_at occurrence_at
    blob_at row_at live
registered_references = refl
