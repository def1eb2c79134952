-- ===== src/Scheduler/Claiming/Eligibility.antt =====
-- That `claim_execution_slots` (analysis_scheduler.py) claims demands that may be claimed.
use mathlib.Core.Path.{subst}
use crash_cap.Base.{
  ℕ, suc, String, ◌≡◌, refl, true, ◌&&◌, Option, some, List, [], ◌∷◌, ◌++◌, leb, ltb, keep_if,
  length, All, All-take, All-keep_if, inl, inr, Bool-cases, arith,
}
use crash_cap.Base.Keys.{◌==◌, text_keys}
use package.text.Mathlib.TextEquality.{eq_iff}
use crash_cap.Base.Sorting.{sort_by-All}
use crash_cap.Base.Table
use crash_cap.Demand.{AnalysisDemand}
use crash_cap.Scheduler.Slots.{Slot, Runs, reconcile_slots, ExecutionSlotClaim}
use crash_cap.Scheduler.Ranking.{
  Ranked, eligible, workspace_rank, rank_all, serves_before, ranked_rows,
}
use crash_cap.Scheduler.Rounds.{Progress, Grant, grant, rounds}
use crash_cap.Scheduler.Rounds.Grants.{rounds_keep}
use crash_cap.Scheduler.Claiming.{
  Settings, SchedulerState, Tables, slots_of, available_slots, claims_of, queue_of, scheduler_state,
  rotation_seen, start_seen, starting, Claiming, handed_out, claim_execution_slots,
}
use crash_cap.Scheduler.Claiming.Outcomes.{claim_outcome}
use crash_cap.Scheduler.Claiming.Limits.{claims_in}

abbrev pub demand_key : AnalysisDemand → String
demand_key d = d.id

-- The primary key: each row is the one that its id finds.
abbrev pub IsKeyed : List AnalysisDemand → Type 0
IsKeyed demands = All (λ d. Table.row_at demand_key d.id demands ≡ some d) demands

module _ (limit enumeration : ℕ) (last : Option String) (active : List Slot) (now : ℕ)
    (demands : List AnalysisDemand) where
  abbrev waiting : List AnalysisDemand
  waiting = keep_if (eligible active now) demands

  -- A row of the table that may be claimed.
  abbrev Ready : AnalysisDemand → Type 0
  Ready d = (Table.row_at demand_key d.id demands ≡ some d) × (eligible active now d ≡ true)

  -- ... and that is among the first of its workspace.
  abbrev Leads : Ranked → Type 0
  Leads r = Ready r.demand × (leb (workspace_rank waiting r.demand) limit ≡ true)

  abbrev Ranks : Ranked → Type 0
  Ranks r = Ready r.demand × (r.rank ≡ workspace_rank waiting r.demand)

  rank_all-All : (ds : List AnalysisDemand) → All Ready ds → All Ranks (rank_all waiting ds)
  rank_all-All [] h = tt
  rank_all-All (d ∷ ds) h = ((h.0, refl), rank_all-All ds h.1)

  ranked_rows-All :
      IsKeyed demands → All Leads (ranked_rows limit enumeration last active now demands)
  unfolding ranked_rows
  ranked_rows-All k = All-take Leads enumeration _ (
      sort_by-All (serves_before last) Leads _ (
        All-keep_if Ranks Leads _ (λ r h e. (h.0, subst (λ n. leb n limit ≡ true) h.1 e)) _
          (rank_all-All waiting (
            All-keep_if (λ d. Table.row_at demand_key d.id demands ≡ some d) Ready _
              (λ d h e. (h, e)) demands k))))

-- What a claim says of the table of demands: the demand is there, in the workspace of the claim, it
-- waits, is due and has no slot, and it is among the first of its workspace.
pub record Claimable (limit : ℕ) (active : List Slot) (now : ℕ) (demands : List AnalysisDemand)
    (workspace id : String) : Type 0 where
  pub demand : AnalysisDemand
  pub found : Table.row_at demand_key id demands ≡ some demand
  pub placed : demand.workspace_id ≡ workspace
  pub ready : eligible active now demand ≡ true
  pub first : leb (workspace_rank (keep_if (eligible active now) demands) demand) limit ≡ true

module _ (limit : ℕ) (active : List Slot) (now : ℕ) (demands : List AnalysisDemand) where
  abbrev Good : String → String → Type 0
  Good = Claimable limit active now demands

  abbrev GoodGrant : Grant → Type 0
  GoodGrant g = Good g.workspace g.demand

  queue_of-All :
      (enumeration : ℕ) (last : Option String) (v : String) (rows : List Ranked)
      → All (Leads limit enumeration last active now demands) rows
      → All (Good v) (queue_of limit active rows v)
  unfolding queue_of
  queue_of-All enumeration last v [] h = tt
  queue_of-All enumeration last v (r ∷ rows) h =
      elim (Bool-cases (r.demand.workspace_id == v && ltb (length (slots_of v active)) limit)) [
        | inl e ↦
            rw (e, All)
              (
                record {
                  demand = r.demand;
                  found = h.0.0.0;
                  placed = ground (arith, e, eq_iff r.demand.workspace_id v);
                  ready = h.0.0.1;
                  first = h.0.1;
                },
                queue_of-All enumeration last v rows h.1,
              )
        | inr e ↦ rw (e, All) (queue_of-All enumeration last v rows h.1)
      ]

  -- Every grant so far is good, and so is all that still waits.
  abbrev Sound : Progress → Type 0
  Sound p = All GoodGrant p.grants × ((v : String) → All (Good v) (p.queues v))

  All-snoc :
      (gs : List Grant) (g : Grant) → All GoodGrant gs → GoodGrant g → All GoodGrant (gs ++ g ∷ [])
  All-snoc [] g h a = (a, tt)
  All-snoc (x ∷ gs) g h a = (h.0, All-snoc gs g h.1 a)

  grant-Sound :
      (most : ℕ) (w d : String) (rest : List String) (p : Progress)
      → p.queues w ≡ d ∷ rest
      → Sound p
      → Sound (grant most w d rest p)
  unfolding grant
  grant-Sound most w d rest p e h =
      let here = subst (All (Good w)) e (h.1 w) in
      (
        All-snoc p.grants _ h.0 here.0,
        λ v. elim (Bool-cases (w == v)) [
          | inl s ↦ rw s (subst (λ u. All (Good u) rest) (ground (arith, s, eq_iff w v)) here.1)
          | inr s ↦ rw s (h.1 v)
        ],
      )

  rounds-Sound :
      (available most fuel : ℕ) (occupied : String → ℕ) (queues : String → List String)
      (ws : List String) (p : Progress)
      → rounds fuel available most ws (starting occupied queues) ≡ some p
      → ((v : String) → All (Good v) (queues v))
      → Sound p
  rounds-Sound available most fuel occupied queues ws p e h =
      rounds_keep available most Sound (λ q h. h)
        (λ w d rest q e l a h. grant-Sound most w d rest q e h) fuel ws _ p e (tt, h)

  abbrev pub GoodClaim : ExecutionSlotClaim → Type 0
  GoodClaim c = Claimable limit active now demands c.workspace_id c.demand_id

  claims_of-All :
      (s : Settings) (owner : String) (token : ℕ → String) (n : ℕ) (gs : List Grant)
      → All GoodGrant gs
      → All GoodClaim (claims_of s owner token now n gs)
  unfolding claims_of
  claims_of-All s owner token n [] h = tt
  claims_of-All s owner token n (g ∷ gs) h = (h.0, claims_of-All s owner token (suc n) gs h.1)

module _ (runs : Runs) (s : Settings) (owner : String) (token : ℕ → String) (now : ℕ)
    (db : Tables) where
  abbrev left : List Slot
  left = reconcile_slots runs now db.slots

  abbrev read : SchedulerState
  read = scheduler_state now db.scheduler

  handed_out-Claimable :
      (p : Progress)
      → IsKeyed db.demands
      → rounds
          (suc (available_slots s left))
          (available_slots s left)
          s.workspace_limit
          (rotation_seen s now left read db)
          (start_seen s now left read db)
        ≡ some p
      → All
          (GoodClaim s.workspace_limit left now db.demands)
          (claims_in (handed_out s now left read db owner token p))
  unfolding handed_out
  handed_out-Claimable p k e =
      claims_of-All s.workspace_limit left now db.demands s owner token 0 p.grants
        (rounds-Sound s.workspace_limit left now db.demands _ _ _ _ _ _ p e (λ v.
          queue_of-All s.workspace_limit left now db.demands s.enumeration_limit
            read.last_workspace_id v _
            (ranked_rows-All s.workspace_limit s.enumeration_limit read.last_workspace_id left now
              db.demands k))).0

  -- Each claim is for a demand that waits, is due, has no slot and is among the first
  -- `workspace_limit` of its workspace.
  pub claim_execution_slots-Claimable :
      (r : Claiming)
      → IsKeyed db.demands
      → claim_execution_slots runs s owner token now db ≡ some r
      → All
          (GoodClaim s.workspace_limit (reconcile_slots runs now db.slots) now db.demands)
          (claims_in r)
  claim_execution_slots-Claimable r k =
      claim_outcome runs s owner token now db
        (λ r.
          All (GoodClaim s.workspace_limit (reconcile_slots runs now db.slots) now db.demands)
            (claims_in r))
        (λ a. tt) (λ a. tt) (λ a. tt) (λ p e. handed_out-Claimable p k e) r
