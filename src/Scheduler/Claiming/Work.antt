-- ===== src/Scheduler/Claiming/Work.antt =====
-- Which of the waiting demands `claim_execution_slots` (analysis_scheduler.py) takes, and which it may
-- leave.
use crash_cap.Base.{
  ℕ, suc, String, ◌≡◌, refl, ap, ◌∙◌, Bool, true, false, not, ◌||◌, ◌&&◌, Option, none, some, List,
  [], ◌∷◌, ◌++◌, map, leb, ltb, keep_if, length, length-append, if◌then◌else◌, inl, inr, Bool-cases,
  arith,
}
use crash_cap.Base.Keys.{◌==◌, text_keys}
use package.text.Mathlib.TextEquality.{eq_iff}
use crash_cap.Base.Sorting.{str_lt, insert_sorted, sort_onto, sort_by}
use crash_cap.Scheduler.Slots.{Slot, Runs, reconcile_slots, ExecutionSlotClaim}
use crash_cap.Scheduler.Ranking.{Ranked}
use crash_cap.Scheduler.Rounds.{Progress, Grant, rounds, is_empty}
use crash_cap.Scheduler.Rounds.Grants.{granted_to, Splits, grant-Splits, rounds_keep}
use crash_cap.Scheduler.Rounds.Ending.{is_in, is_in-append, rounds_exhaust}
use crash_cap.Scheduler.Claiming.{
  Settings, SchedulerState, Tables, slots_of, available_slots, claims_of, queue_of, distinct,
  workspaces_of, rotate, Claiming, rows_seen, rotation_seen, start_seen, starting, scheduler_state,
  handed_out, claim_execution_slots,
}
use crash_cap.Scheduler.Claiming.Outcomes.{claim_outcome}
use crash_cap.Scheduler.Claiming.Limits.{
  claims_in, handed_out-count, handed_out-claims, rounds-Counts,
}

is_in-keep_if :
    (p : String → Bool) (v : String) (ws : List String)
    → is_in v (keep_if p ws) ≡ (is_in v ws && p v)
is_in-keep_if p v [] = refl
is_in-keep_if p v (w ∷ ws) = ground (arith, is_in-keep_if p v ws, eq_iff w v)

is_in-distinct : (v : String) (ws : List String) → is_in v (distinct ws) ≡ is_in v ws
unfolding distinct
is_in-distinct v [] = refl
is_in-distinct v (w ∷ ws) = ground (
  arith,
  is_in-distinct v ws,
  is_in-keep_if (λ u. not (u == w)) v (distinct ws),
  eq_iff w v,
  eq_iff v w,
)

is_in-insert :
    (before : String → String → Bool) (v w : String) (ws : List String)
    → is_in v (insert_sorted before w ws) ≡ (w == v || is_in v ws)
unfolding insert_sorted
is_in-insert before v w [] = refl
is_in-insert before v w (u ∷ us) = ground (arith, is_in-insert before v w us)

is_in-sort_onto :
    (before : String → String → Bool) (v : String) (sorted ws : List String)
    → is_in v (sort_onto before sorted ws) ≡ (is_in v sorted || is_in v ws)
unfolding sort_onto
is_in-sort_onto before v sorted [] = ground arith
is_in-sort_onto before v sorted (w ∷ ws) = ground (
  arith,
  is_in-sort_onto before v (insert_sorted before w sorted) ws,
  is_in-insert before v w sorted,
)

is_in-sort_by :
    (before : String → String → Bool) (v : String) (ws : List String)
    → is_in v (sort_by before ws) ≡ is_in v ws
unfolding sort_by
is_in-sort_by before v ws = is_in-sort_onto before v [] ws

is_in-rotate :
    (last : Option String) (v : String) (ws : List String) → is_in v (rotate last ws) ≡ is_in v ws
unfolding rotate
is_in-rotate none v ws = refl
is_in-rotate (some last) v ws = ground (
  arith,
  is_in-append v (keep_if (str_lt last) ws) (keep_if (λ w. not (str_lt last w)) ws),
  is_in-keep_if (str_lt last) v ws,
  is_in-keep_if (λ w. not (str_lt last w)) v ws,
)

length-empty {ℓ} : {A : Type ℓ} (xs : List A) → is_empty xs ≡ true → length xs ≡ 0
length-empty [] e = refl
length-empty (x ∷ xs) e = ground arith

-- The workspaces of some rows.
abbrev pub workspaces : List Ranked → List String
workspaces rows = map (λ r. r.demand.workspace_id) rows

module _ (s : Settings) (now : ℕ) (active : List Slot) (state : SchedulerState) (db : Tables) where
  -- Every workspace with a row and with room is in the rotation.
  is_in-rotation_seen :
      (v : String)
      → is_in v (workspaces (rows_seen s now active state db)) ≡ true
      → ltb (length (slots_of v active)) s.workspace_limit ≡ true
      → is_in v (rotation_seen s now active state db) ≡ true
  unfolding workspaces_of
  is_in-rotation_seen v m l =
      is_in-rotate state.last_workspace_id v _
      ∙ is_in-sort_by str_lt v _
      ∙ is_in-distinct v _
      ∙ is_in-keep_if (λ w. ltb (length (slots_of w active)) s.workspace_limit) v _
      ∙ ground (arith, m, l)

-- The demands of a workspace among some rows, in the order of the rows.
unfoldable pub ids_of : String → List Ranked → List String
ids_of v [] = []
ids_of v (r ∷ rs) =
    let rest = ids_of v rs in if r.demand.workspace_id == v then r.demand.id ∷ rest else rest

-- A workspace with room waits with all of its rows.
queue_of-room :
    (limit : ℕ) (active : List Slot) (v : String) (rows : List Ranked)
    → ltb (length (slots_of v active)) limit ≡ true
    → queue_of limit active rows v ≡ ids_of v rows
unfolding queue_of ids_of
queue_of-room limit active v [] l = refl
queue_of-room limit active v (r ∷ rs) l = ground (arith, l, queue_of-room limit active v rs l)

-- One without room waits with none.
queue_of-full :
    (limit : ℕ) (active : List Slot) (v : String) (rows : List Ranked)
    → ltb (length (slots_of v active)) limit ≡ false
    → queue_of limit active rows v ≡ []
unfolding queue_of
queue_of-full limit active v [] l = refl
queue_of-full limit active v (r ∷ rs) l = ground (arith, l, queue_of-full limit active v rs l)

empty-beginning {ℓ} : {A : Type ℓ} (xs ys : List A) → xs ++ ys ≡ [] → xs ≡ []
empty-beginning [] ys h = refl
empty-beginning (x ∷ xs) ys h = absurd (ground (arith, h))

-- The demands that are claimed for a workspace, in order.
unfoldable pub claimed_for : String → List ExecutionSlotClaim → List String
claimed_for v [] = []
claimed_for v (c ∷ cs) =
    let rest = claimed_for v cs in if c.workspace_id == v then c.demand_id ∷ rest else rest

module _ (s : Settings) (owner : String) (token : ℕ → String) (now : ℕ) where
  claimed_for-claims_of :
      (v : String) (n : ℕ) (gs : List Grant)
      → claimed_for v (claims_of s owner token now n gs) ≡ granted_to v gs
  unfolding claimed_for claims_of granted_to
  claimed_for-claims_of v n [] = refl
  claimed_for-claims_of v n (g ∷ gs) = ground (arith, claimed_for-claims_of v (suc n) gs)

  claimed_for-handed_out :
      (active : List Slot) (state : SchedulerState) (db : Tables) (v : String) (p : Progress)
      → claimed_for v (claims_in (handed_out s now active state db owner token p))
        ≡ granted_to v p.grants
  unfolding handed_out
  claimed_for-handed_out active state db v p = claimed_for-claims_of v 0 p.grants

module _ (runs : Runs) (s : Settings) (owner : String) (token : ℕ → String) (now : ℕ)
    (db : Tables) where
  abbrev active : List Slot
  active = reconcile_slots runs now db.slots

  abbrev state : SchedulerState
  state = scheduler_state now db.scheduler

  -- The ranked demands of the workspace, in the order of the ranking.
  abbrev pub ranked_for : String → List String
  ranked_for v = ids_of v (rows_seen s now active state db)

  rounds-Splits :
      (available limit fuel : ℕ) (occupied : String → ℕ) (queues : String → List String)
      (ws : List String) (p : Progress)
      → rounds fuel available limit ws (starting occupied queues) ≡ some p
      → Splits queues p
  unfolding granted_to
  rounds-Splits available limit fuel occupied queues ws p e =
      rounds_keep available limit (Splits queues) (λ q h. h)
        (λ w d rest q e l a h. grant-Splits queues limit w d rest q e h) fuel ws _ p e (λ v. refl)

  -- What is granted to a workspace is a beginning of its ranked demands.
  granted-first :
      (v : String) (granted left : List String)
      → granted ++ left ≡ queue_of s.workspace_limit active (rows_seen s now active state db) v
      → (rest : List String) × (granted ++ rest ≡ ranked_for v)
  granted-first v granted left e =
      elim (Bool-cases (ltb (length (slots_of v active)) s.workspace_limit)) [
        | inl l ↦ (left, e ∙ queue_of-room s.workspace_limit active v _ l)
        | inr l ↦ (
          ranked_for v,
          ap (λ xs. xs ++ ranked_for v)
              (empty-beginning granted left (e ∙ queue_of-full s.workspace_limit active v _ l)),
        )
      ]

  -- What is claimed for a workspace are the first of its ranked demands, in the order of the ranking.
  pub claim_execution_slots-first :
      (v : String) (r : Claiming)
      → claim_execution_slots runs s owner token now db ≡ some r
      → (rest : List String) × (claimed_for v (claims_in r) ++ rest ≡ ranked_for v)
  unfolding claimed_for
  claim_execution_slots-first v =
      claim_outcome runs s owner token now db
        (λ r. (rest : List String) × (claimed_for v (claims_in r) ++ rest ≡ ranked_for v))
        (λ a. (_, refl)) (λ a. (_, refl)) (λ a. (_, refl))
        (λ p e. granted-first v _ (p.queues v) (
          ap (λ xs. xs ++ p.queues v) (claimed_for-handed_out s owner token now _ _ db v p)
          ∙ rounds-Splits _ _ _ _ _ _ p e v))

  handed_out-exhausts :
      (v : String) (p : Progress)
      → rounds
          (suc (available_slots s active))
          (available_slots s active)
          s.workspace_limit
          (rotation_seen s now active state db)
          (start_seen s now active state db)
        ≡ some p
      → is_in v (workspaces (rows_seen s now active state db)) ≡ true
      → (leb
            (available_slots s active)
            (length (claims_in (handed_out s now active state db owner token p)))
          || leb s.workspace_limit
              (length (slots_of v (handed_out s now active state db owner token p).1.slots))
          || leb
              (length (ranked_for v))
              (length (claimed_for v (claims_in (handed_out s now active state db owner token p)))))
        ≡ true
  handed_out-exhausts v p e m =
      let claimed = handed_out-claims s owner token now active state db p in
      let slots = handed_out-count s owner token now active state db v p in
      let first = claimed_for-handed_out s owner token now active state db v p in
      elim (Bool-cases (ltb (length (slots_of v active)) s.workspace_limit)) [
        | inl l ↦
            rw (claimed, slots, first)
              (ground (
                arith,
                rounds_exhaust _ _ _ v _ _ p e (is_in-rotation_seen s now active state db v m l),
                rounds-Counts _ _ _ _ _ _ p e v,
                ap length (rounds-Splits _ _ _ _ _ _ p e v),
                length-append (granted_to v p.grants) (p.queues v),
                length-empty (p.queues v),
                ap length
                    (queue_of-room s.workspace_limit active v (rows_seen s now active state db) l),
              ))
        | inr l ↦ rw slots (ground (arith, l))
      ]

  -- If the scheduler is enabled and not paused, then for a workspace with a ranked row all the slots that are
  -- available are claimed, or the workspace has its limit of slots afterwards, or it gets as many claims as it has
  -- ranked demands.
  pub claim_execution_slots-exhausts :
      (v : String) (r : Claiming)
      → s.enabled ≡ true
      → s.paused ≡ false
      → is_in v (
          workspaces (
            rows_seen s now
              (reconcile_slots runs now db.slots)
              (scheduler_state now db.scheduler)
              db))
        ≡ true
      → claim_execution_slots runs s owner token now db ≡ some r
      → (leb (available_slots s (reconcile_slots runs now db.slots)) (length (claims_in r))
          || leb s.workspace_limit (length (slots_of v r.1.slots))
          || leb (length (ranked_for v)) (length (claimed_for v (claims_in r))))
        ≡ true
  claim_execution_slots-exhausts v r en un m =
      claim_outcome runs s owner token now db
        (λ r.
          (leb (available_slots s (reconcile_slots runs now db.slots)) (length (claims_in r))
            || leb s.workspace_limit (length (slots_of v r.1.slots))
            || leb (length (ranked_for v)) (length (claimed_for v (claims_in r))))
          ≡ true)
        (λ a. ground (arith, a, en)) (λ a. ground (arith, a, un)) (λ a. ground (arith, a))
        (λ p e. handed_out-exhausts v p e m) r
