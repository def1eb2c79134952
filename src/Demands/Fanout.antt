-- ===== src/Demands/Fanout.antt =====
-- Declarations of module roles reach the demands page by page: `fanout_workspace_role_next`
-- (analysis_demands.py).
pub mod Coverage
use Prim.Native.String.{◌++◌}
use crash_cap.Base.{
  ℕ, zero, suc, ◌+◌, ◌-◌, String, Bool, true, false, not, ◌&&◌, ◌||◌, Option, none, some, List, [],
  ◌∷◌, map, is_some, or_else, nat_eq, ltb, leb, length, take, keep_if, first_where, if◌then◌else◌,
  Result, ok, err, ◌>>=◌, ◌>>◌, require, present,
}
use crash_cap.Base.Keys.{◌==◌, text_keys}
use crash_cap.Base.Sorting.{str_lt, sorted_set}
use crash_cap.Base.Paging.{id_at}
use crash_cap.Base.Table
use crash_cap.Evidence.Decision.{same_text}
use crash_cap.Demand.{AnalysisDemand}
use crash_cap.Demands.Rows.{
  Tables, DemandError, limit_invalid, workspace_not_found, event_gap, row_missing, occurrence_at,
  blob_at, save_demand,
}
use crash_cap.Demands.Changes.{demand_of, note_change}

-- The columns of `Workspace` that the fan-out reads.
pub record Workspace : Type 0 where
  pub id : String
  pub module_role_version : ℕ

-- The columns of `WorkspaceModuleRole`.
pub record RoleEvent : Type 0 where
  pub workspace_id : String
  pub version : ℕ
  pub code_id : String
  pub debug_id : String
  pub architecture : String

pub record DumpSymbolReference : Type 0 where
  pub occurrence_id : String
  pub module_index : ℕ
  pub inspection_id : String
  pub code_id : Option String
  pub debug_id : Option String
  pub architecture : String

pub record EventCursor : Type 0 where
  pub id : String
  pub revision : ℕ
  pub after_occurrence_id : Option String

-- The tables that a fan-out reads, beside those of the demands, and its cursors.
pub record Feed : Type 0 where
  pub workspaces : List Workspace
  pub roles : List RoleEvent
  pub references : List DumpSymbolReference
  pub cursors : List EventCursor

pub record FanoutPage : Type 0 where
  pub revision : ℕ
  pub affected : List String
  pub event_complete : Bool
  pub caught_up : Bool

abbrev pub workspace_key : Workspace → String
workspace_key w = w.id

abbrev pub cursor_key : EventCursor → String
cursor_key c = c.id

abbrev pub cursor_id : String → String
cursor_id workspace = "workspace-role-v1:" ++ workspace

unfoldable pub cursor_of : String → Feed → EventCursor
cursor_of workspace f =
    or_else (Table.row_at cursor_key (cursor_id workspace) f.cursors)
      (record { id = cursor_id workspace; revision = 0; after_occurrence_id = none })

abbrev pub event_version : EventCursor → ℕ
event_version c = if is_some c.after_occurrence_id then c.revision else c.revision + 1

unfoldable pub role_at : String → ℕ → List RoleEvent → Option RoleEvent
role_at workspace version rs =
    first_where (λ r. r.workspace_id == workspace && nat_eq r.version version) rs

-- `DumpSymbolReference.inspection_id == AnalysisDemand.inspection_id`, which a NULL never satisfies
abbrev inspected_by : Option String → String → Bool
inspected_by none id = false
inspected_by (some i) id = id == i

abbrev refers : RoleEvent → AnalysisDemand → DumpSymbolReference → Bool
refers e d r =
    r.occurrence_id == d.occurrence_id
    && inspected_by d.inspection_id r.inspection_id
    && same_text r.code_id (some e.code_id)
    && same_text r.debug_id (some e.debug_id)
    && r.architecture == e.architecture

-- The demand is one of the workspace that refers to the module of the event.
unfoldable pub concerns : String → RoleEvent → Feed → AnalysisDemand → Bool
concerns workspace e f d =
    d.workspace_id == workspace && is_some (first_where (refers e d) f.references)

-- `AnalysisDemand.occurrence_id > cursor.after_occurrence_id`, where the cursor has one
abbrev pub beyond : Option String → String → Bool
beyond none id = true
beyond (some after) id = str_lt after id

-- The ids that the query finds, without its limit.
unfoldable pub affected_ids : String → RoleEvent → Option String → Feed → Tables → List String
affected_ids workspace e after f db = sorted_set (
    map (λ d. d.occurrence_id)
      (keep_if (λ d. concerns workspace e f d && beyond after d.occurrence_id) db.demands))

-- A demand of a page takes note of the change; `.one()` and the assertions raise `row_missing`.
unfoldable pub noted : ℕ → String → Tables → Result DemandError Tables
noted now id db = do
  d ← present (demand_of id db.demands) row_missing
  o ← present (occurrence_at d.occurrence_id db) row_missing
  b ← present (blob_at o.dump_blob_id db) row_missing
  ok (save_demand (note_change "role_change" b now d) db)

unfoldable pub note_each : ℕ → List String → Tables → Result DemandError Tables
unfolding noted
note_each now [] db = ok db
note_each now (id ∷ ids) db = noted now id db >>= note_each now ids

-- What a call returns or raises, and the tables after it; one that raises is rolled back.
abbrev pub Paged : Type 0
Paged = Result DemandError FanoutPage × (Feed × Tables)

abbrev pub save_cursor : EventCursor → Feed → Feed
save_cursor c f = record f { cursors = Table.save cursor_key c f.cursors }

-- `rows[limit - 1] if more else None`
unfoldable pub next_after : ℕ → List String → Option String
next_after limit ids = if ltb limit (length ids) then id_at (limit - 1) ids else none

unfoldable pub paged :
    ℕ
    → Workspace
    → EventCursor
    → RoleEvent
    → List String
    → Result DemandError Tables
    → Feed
    → Tables
    → Paged
unfolding next_after
paged limit w c e ids (err x) f db = (err x, (f, db))
paged limit w c e ids (ok db') f db =
    let more = ltb limit (length ids) in
    (
      ok (record {
        revision = e.version;
        affected = take limit ids;
        event_complete = not more;
        caught_up = not more && nat_eq e.version w.module_role_version;
      }),
      (
        save_cursor (record c { revision = e.version; after_occurrence_id = next_after limit ids })
            f,
        db',
      ),
    )

-- There is no next event: the cursor has to be at the last one.
unfoldable pub caught_up : Workspace → EventCursor → Feed → Tables → Paged
caught_up w c f db =
    if is_some c.after_occurrence_id || not (nat_eq c.revision w.module_role_version)
    then (err event_gap, (f, db))
    else (
      ok (record { revision = c.revision; affected = []; event_complete = true; caught_up = true }),
      (save_cursor c f, db),
    )

unfoldable pub fanned_out :
    ℕ → String → ℕ → Workspace → EventCursor → Option RoleEvent → Feed → Tables → Paged
unfolding paged caught_up
fanned_out now workspace limit w c none f db = caught_up w c f db
fanned_out now workspace limit w c (some e) f db =
    let ids = affected_ids workspace e c.after_occurrence_id f db in
    paged limit w c e ids (note_each now (take limit ids) db) f db

unfoldable pub for_workspace : ℕ → String → ℕ → Result DemandError Workspace → Feed → Tables → Paged
unfolding fanned_out
for_workspace now workspace limit (err x) f db = (err x, (f, db))
for_workspace now workspace limit (ok w) f db =
    let c = cursor_of workspace f in
    fanned_out now workspace limit w c (role_at workspace (event_version c) f.roles) f db

unfoldable pub fanout_checks : String → ℕ → Feed → Result DemandError Workspace
fanout_checks workspace limit f = do
  require (leb 1 limit && leb limit 200) limit_invalid
  present (Table.row_at workspace_key workspace f.workspaces) workspace_not_found

unfoldable pub fanout_workspace_role_next : ℕ → String → ℕ → Feed → Tables → Paged
unfolding for_workspace fanout_checks
fanout_workspace_role_next now workspace limit f db =
    for_workspace now workspace limit (fanout_checks workspace limit f) f db
