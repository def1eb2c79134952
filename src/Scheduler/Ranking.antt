-- ===== src/Scheduler/Ranking.antt =====
-- The waiting demands in the order of the query of `claim_execution_slots` (analysis_scheduler.py).
use crash_cap.Base.{
  ℕ, suc, String, Bool, false, not, ◌&&◌, ◌||◌, Option, none, some, List, [], ◌∷◌, if◌then◌else◌,
  is_some, leb, ltb, nat_eq, keep_if, take, length,
}
use crash_cap.Base.Keys.{◌==◌, text_keys}
use crash_cap.Base.Sorting.{sort_by, str_lt}
use crash_cap.Base.Table
use crash_cap.Demand.{AnalysisDemand, is_waiting}
use crash_cap.Scheduler.Slots.{Slot, slot_key}

-- `not_before IS NOT NULL AND not_before <= now`
abbrev pub is_due : Option ℕ → ℕ → Bool
is_due none now = false
is_due (some t) now = leb t now

-- The WHERE clause of `ranked`. `slots` are those that the reconciliation left.
unfoldable pub eligible : List Slot → ℕ → AnalysisDemand → Bool
eligible slots now d =
    is_waiting d.state
    && is_due d.not_before now
    && not (is_some (Table.row_at slot_key d.id slots))

abbrev pub priority : AnalysisDemand → ℕ
priority d = if d.reason == "new_dump" || d.reason == "manual" then 0 else 1

-- (priority, updated_at, id)
abbrev pub ranks_before : AnalysisDemand → AnalysisDemand → Bool
ranks_before a b =
    ltb (priority a) (priority b)
    || (nat_eq (priority a) (priority b)
        && (ltb a.updated_at b.updated_at
            || (nat_eq a.updated_at b.updated_at && str_lt a.id b.id)))

-- row_number() OVER (PARTITION BY workspace_id ORDER BY priority, updated_at, id): ids are unique, so
-- the rows before one are those that rank before it.
unfoldable pub workspace_rank : List AnalysisDemand → AnalysisDemand → ℕ
workspace_rank ds d =
    suc (length (keep_if (λ x. x.workspace_id == d.workspace_id && ranks_before x d) ds))

-- 0 for the workspaces after the last one served, 1 for the others
abbrev pub rotation : Option String → String → ℕ
rotation none w = 0
rotation (some last) w = if str_lt last w then 0 else 1

pub record Ranked : Type 0 where
  pub demand : AnalysisDemand
  pub rank : ℕ

-- ORDER BY workspace_rank, rotation, workspace_id, priority, updated_at, demand_id
abbrev pub serves_before : Option String → Ranked → Ranked → Bool
serves_before last a b =
    let ra = rotation last a.demand.workspace_id in
    let rb = rotation last b.demand.workspace_id in
    ltb a.rank b.rank
    || (nat_eq a.rank b.rank
        && (ltb ra rb
            || (nat_eq ra rb
                && (str_lt a.demand.workspace_id b.demand.workspace_id
                    || (a.demand.workspace_id == b.demand.workspace_id
                        && ranks_before a.demand b.demand)))))

abbrev pub rank_all : List AnalysisDemand → List AnalysisDemand → List Ranked
rank_all all [] = []
rank_all all (d ∷ ds) = record { demand = d; rank = workspace_rank all d } ∷ rank_all all ds

unfoldable pub ranked_rows :
    ℕ → ℕ → Option String → List Slot → ℕ → List AnalysisDemand → List Ranked
unfolding eligible workspace_rank sort_by
ranked_rows workspace_limit enumeration_limit last slots now demands =
    let waiting = keep_if (eligible slots now) demands in
    let kept = keep_if (λ r. leb r.rank workspace_limit) (rank_all waiting waiting) in
    take enumeration_limit (sort_by (serves_before last) kept)
