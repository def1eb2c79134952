-- ===== src/Scheduler/Rounds.antt =====
-- The rounds of `claim_execution_slots` (analysis_scheduler.py): one slot to each workspace in turn.
pub mod Grants
pub mod Ending
use crash_cap.Base.{
  ℕ, zero, suc, ◌+◌, String, Bool, true, false, not, ◌&&◌, Option, none, some, List, [], ◌∷◌, ◌++◌,
  if◌then◌else◌, leb, ltb, length,
}
use crash_cap.Base.Keys.{◌==◌, text_keys}

-- One claim: the workspace and the demand.
pub record Grant : Type 0 where
  pub workspace : String
  pub demand : String

-- The variables that the loops change: the dictionaries `occupied` and `by_workspace`, whose missing
-- entries read as 0 and as the empty list, and the lists `remaining` and `claims`.
pub record Progress : Type 0 where
  pub occupied : String → ℕ
  pub queues : String → List String
  pub remaining : List String
  pub grants : List Grant

-- `map[key] = value`
abbrev pub put {ℓ} : {A : Type ℓ} → String → A → (String → A) → String → A
put w a f v = if w == v then a else f v

abbrev pub is_empty {ℓ} : {A : Type ℓ} → List A → Bool
is_empty [] = true
is_empty (x ∷ xs) = false

-- The slot that workspace `w` gets for demand `d`, the head of its queue.
unfoldable pub grant : ℕ → String → String → List String → Progress → Progress
grant limit w d rest p = record {
  occupied = put w (p.occupied w + 1) p.occupied;
  queues = put w rest p.queues;
  remaining =
      if not (is_empty rest) && ltb (p.occupied w + 1) limit
      then p.remaining ++ w ∷ []
      else p.remaining;
  grants = p.grants ++ record { workspace = w; demand = d } ∷ [];
}

-- The turn of workspace `w`, whose queue is given.
unfoldable pub turn : ℕ → String → List String → Progress → Progress
turn limit w [] p = p
turn limit w (d ∷ rest) p = if leb limit (p.occupied w) then p else grant limit w d rest p

-- `for workspace_id in workspaces`, which stops when enough has been claimed
unfoldable pub pass : ℕ → ℕ → List String → Progress → Progress
pass available limit [] p = p
pass available limit (w ∷ ws) p =
    let next = pass available limit ws (turn limit w (p.queues w) p) in
    if leb available (length p.grants) then p else next

abbrev pub cleared : Progress → Progress
cleared p = record p { remaining = [] }

-- `while workspaces and len(claims) < available`. The fuel is the number of rounds.
unfoldable pub rounds : ℕ → ℕ → ℕ → List String → Progress → Option Progress
rounds fuel available limit [] p = some p
rounds zero available limit (w ∷ ws) p = none
rounds (suc fuel) available limit (w ∷ ws) p =
    let q = pass available limit (w ∷ ws) (cleared p) in
    let rest = rounds fuel available limit q.remaining q in
    if leb available (length p.grants) then some p else rest
