-- ===== src/Scheduler/Rounds/Grants.antt =====
-- What every slot that the rounds of the scheduler (analysis_scheduler.py) hand out keeps.
use mathlib.Core.Path.{subst}
use mathlib.Core.List.{append_assoc}
use crash_cap.Base.{
  ℕ, zero, suc, ◌+◌, ◌≤◌, String, ◌≡◌, refl, true, false, ◌||◌, Option, none, some, List, [], ◌∷◌,
  ◌++◌, if◌then◌else◌, leb, nat_eq, length, length-append, not-leb, inl, inr, Bool-cases, arith,
}
use crash_cap.Base.Keys.{◌==◌, text_keys}
use package.text.Mathlib.TextEquality.{eq_iff}
use crash_cap.Scheduler.Rounds.{Progress, Grant, grant, turn, pass, cleared, rounds}

abbrev pub Holds : (Progress → Type 0) → Option Progress → Type 0
Holds I none = Unit
Holds I (some q) = I q

-- A property of the progress that says nothing of `remaining` and that each slot keeps holds at the
-- end if it holds at the start.
module _ (available limit : ℕ) (I : Progress → Type 0)
    (clear : (p : Progress) → I p → I (cleared p))
    (step : (w d : String) (rest : List String) (p : Progress)
      → p.queues w ≡ d ∷ rest
      → leb limit (p.occupied w) ≡ false
      → leb available (length p.grants) ≡ false
      → I p
      → I (grant limit w d rest p)) where
  turn_keeps :
      (w : String) (queue : List String) (p : Progress)
      → p.queues w ≡ queue
      → leb available (length p.grants) ≡ false
      → I p
      → I (turn limit w queue p)
  unfolding turn
  turn_keeps w [] p e a h = h
  turn_keeps w (d ∷ rest) p e a h = elim (Bool-cases (leb limit (p.occupied w))) [
    | inl l ↦ rw l h
    | inr l ↦ rw l (step w d rest p e l a h)
  ]

  pub pass_keeps : (ws : List String) (p : Progress) → I p → I (pass available limit ws p)
  unfolding pass
  pass_keeps [] p h = h
  pass_keeps (w ∷ ws) p h = elim (Bool-cases (leb available (length p.grants))) [
    | inl a ↦ rw a h
    | inr a ↦ rw a (pass_keeps ws _ (turn_keeps w _ p refl a h))
  ]

  rounds_hold :
      (fuel : ℕ) (ws : List String) (p : Progress)
      → I p
      → Holds I (rounds fuel available limit ws p)
  unfolding rounds
  rounds_hold fuel [] p h = h
  rounds_hold zero (w ∷ ws) p h = tt
  rounds_hold (suc fuel) (w ∷ ws) p h = elim (Bool-cases (leb available (length p.grants))) [
    | inl a ↦ rw (a, Holds) h
    | inr a ↦ rw a (rounds_hold fuel _ _ (pass_keeps (w ∷ ws) (cleared p) (clear p h)))
  ]

  pub rounds_keep :
      (fuel : ℕ) (ws : List String) (p q : Progress)
      → rounds fuel available limit ws p ≡ some q
      → I p
      → I q
  rounds_keep fuel ws p q e h = subst (Holds I) e (rounds_hold fuel ws p h)

-- At most `available` slots are handed out.
grant-length :
    (available limit : ℕ) (w d : String) (rest : List String) (p : Progress)
    → leb available (length p.grants) ≡ false
    → length (grant limit w d rest p).grants ≤ available
unfolding grant
grant-length available limit w d rest p a =
    omega (arith, length-append p.grants (record { workspace = w; demand = d } ∷ []), not-leb _ _ a)

module _ (available limit : ℕ) where
  abbrev Within : Progress → Type 0
  Within p = length p.grants ≤ available

  pub pass-length :
      (ws : List String) (p : Progress)
      → length p.grants ≤ available
      → length (pass available limit ws p).grants ≤ available
  pass-length =
      pass_keeps available limit Within (λ p h. h)
        (λ w d rest p e l a h. grant-length available limit w d rest p a)

  pub rounds-length :
      (fuel : ℕ) (ws : List String) (p q : Progress)
      → rounds fuel available limit ws p ≡ some q
      → length p.grants ≤ available
      → length q.grants ≤ available
  rounds-length =
      rounds_keep available limit Within (λ p h. h)
        (λ w d rest p e l a h. grant-length available limit w d rest p a)

-- The slots granted to a workspace.
unfoldable pub granted_to : String → List Grant → List String
granted_to w [] = []
granted_to w (g ∷ gs) =
    let rest = granted_to w gs in if g.workspace == w then g.demand ∷ rest else rest

granted_to-append :
    (w : String) (gs hs : List Grant) → granted_to w (gs ++ hs) ≡ granted_to w gs ++ granted_to w hs
unfolding granted_to
granted_to-append w [] hs = refl
granted_to-append w (g ∷ gs) hs = ground (arith, granted_to-append w gs hs)

-- Every queue is served from its head: what was granted to a workspace, followed by what still waits,
-- is its queue at the start.
abbrev pub Splits : (String → List String) → Progress → Type 0
Splits start p = (v : String) → granted_to v p.grants ++ p.queues v ≡ start v

pub grant-Splits :
    (start : String → List String) (limit : ℕ) (w d : String) (rest : List String) (p : Progress)
    → p.queues w ≡ d ∷ rest
    → Splits start p
    → Splits start (grant limit w d rest p)
unfolding grant granted_to
grant-Splits start limit w d rest p e h v = elim (Bool-cases (w == v)) [
  | inl s ↦
      rw (granted_to-append v p.grants (record { workspace = w; demand = d } ∷ []), s)
        (grind (arith, append_assoc (granted_to v p.grants) (d ∷ []) rest, h v, eq_iff w v))
  | inr s ↦
      rw (granted_to-append v p.grants (record { workspace = w; demand = d } ∷ []), s)
        (grind (arith, append_assoc (granted_to v p.grants) [] (p.queues v), h v))
]

-- `occupied` counts the slots at the start and those that were granted.
abbrev pub Counts : (String → ℕ) → Progress → Type 0
Counts start p = (v : String) → p.occupied v ≡ start v + length (granted_to v p.grants)

pub grant-Counts :
    (start : String → ℕ) (limit : ℕ) (w d : String) (rest : List String) (p : Progress)
    → Counts start p
    → Counts start (grant limit w d rest p)
unfolding grant granted_to
grant-Counts start limit w d rest p h v = elim (Bool-cases (w == v)) [
  | inl s ↦
      rw (granted_to-append v p.grants (record { workspace = w; demand = d } ∷ []), s)
        (grind (arith, length-append (granted_to v p.grants) (d ∷ []), h v, eq_iff w v))
  | inr s ↦
      rw (granted_to-append v p.grants (record { workspace = w; demand = d } ∷ []), s)
        (grind (arith, length-append {A = String} (granted_to v p.grants) [], h v))
]

-- No workspace is brought above the limit.
abbrev pub Bounded : ℕ → (String → ℕ) → Progress → Type 0
Bounded limit start p =
    (v : String) → (leb (p.occupied v) limit || nat_eq (p.occupied v) (start v)) ≡ true

pub grant-Bounded :
    (start : String → ℕ) (limit : ℕ) (w d : String) (rest : List String) (p : Progress)
    → leb limit (p.occupied w) ≡ false
    → Bounded limit start p
    → Bounded limit start (grant limit w d rest p)
unfolding grant
grant-Bounded start limit w d rest p l h v = ground (arith, h v)
