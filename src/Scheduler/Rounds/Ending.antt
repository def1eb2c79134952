-- ===== src/Scheduler/Rounds/Ending.antt =====
-- How the rounds of the scheduler (analysis_scheduler.py) end: the fuel is enough, and nothing that
-- could be handed out is left.
use mathlib.Core.Path.{subst}
use crash_cap.Base.{
  ℕ, zero, suc, ◌+◌, ◌≤◌, ◌<◌, String, ◌≡◌, refl, Bool, true, false, ◌||◌, some, List, [], ◌∷◌,
  ◌++◌, leb, length, length-append, inl, inr, Bool-cases, arith,
}
use crash_cap.Base.Keys.{◌==◌, text_keys}
use package.text.Mathlib.TextEquality.{eq_iff}
use crash_cap.Scheduler.Rounds.{Progress, is_empty, grant, turn, pass, cleared, rounds}
use crash_cap.Scheduler.Rounds.Grants.{Holds, pass-length}

-- A workspace is appended to `remaining` only with a new claim.
abbrev Grows : Progress → Progress → Type 0
Grows p q = length q.remaining + length p.grants ≤ length p.remaining + length q.grants

turn-Grows :
    (limit : ℕ) (w : String) (queue : List String) (p : Progress) → Grows p (turn limit w queue p)
unfolding turn grant
turn-Grows limit w [] p = omega arith
turn-Grows limit w (d ∷ rest) p = ground (
  arith,
  length-append p.grants (record { workspace = w; demand = d } ∷ []),
  length-append p.remaining (w ∷ []),
)

pass-Grows :
    (available limit : ℕ) (ws : List String) (p : Progress) → Grows p (pass available limit ws p)
unfolding pass
pass-Grows available limit [] p = omega arith
pass-Grows available limit (w ∷ ws) p = elim (Bool-cases (leb available (length p.grants))) [
  | inl a ↦ rw a (omega arith)
  | inr a ↦ rw a (
      omega (
        arith,
        turn-Grows limit w (p.queues w) p,
        pass-Grows available limit ws (turn limit w (p.queues w) p),
      ))
]

not_empty {ℓ} : {A : Type ℓ} (xs : List A) → is_empty xs ≡ false → 1 ≤ length xs
not_empty [] e = ground arith
not_empty (x ∷ xs) e = omega arith

-- More rounds than slots that may still be handed out are enough.
pub rounds_end :
    (fuel available limit : ℕ) (ws : List String) (p : Progress)
    → length p.grants ≤ available
    → (is_empty ws ≡ false → available < length p.grants + fuel)
    → (q : Progress) × (rounds fuel available limit ws p ≡ some q)
unfolding rounds
rounds_end fuel available limit [] p b h = (p, refl)
rounds_end zero available limit (w ∷ ws) p b h = ground (arith, h refl)
rounds_end (suc fuel) available limit (w ∷ ws) p b h =
    elim (Bool-cases (leb available (length p.grants))) [
      | inl a ↦ rw a (p, refl)
      | inr a ↦ rw a (
          rounds_end fuel available limit _ _ (pass-length available limit (w ∷ ws) (cleared p) b)
            (λ m. omega (
              arith,
              h refl,
              pass-Grows available limit (w ∷ ws) (cleared p),
              not_empty (pass available limit (w ∷ ws) (cleared p)).remaining m,
            )))
    ]

abbrev pub is_in : String → List String → Bool
is_in v [] = false
is_in v (w ∷ ws) = w == v || is_in v ws

pub is_in-append :
    (v : String) (us ws : List String) → is_in v (us ++ ws) ≡ (is_in v us || is_in v ws)
is_in-append v [] ws = refl
is_in-append v (u ∷ us) ws = ground (arith, is_in-append v us ws)

-- A workspace that can be given no slot.
abbrev pub is_exhausted : ℕ → Progress → String → Bool
is_exhausted limit p v = leb limit (p.occupied v) || is_empty (p.queues v)

turn_covers :
    (limit : ℕ) (v w : String) (ws queue : List String) (p : Progress)
    → p.queues w ≡ queue
    → (is_in v (w ∷ ws) || is_in v p.remaining || is_exhausted limit p v) ≡ true
    → (is_in v ws
        || is_in v (turn limit w queue p).remaining
        || is_exhausted limit (turn limit w queue p) v)
      ≡ true
unfolding turn grant
turn_covers limit v w ws [] p e h = ground (arith, eq_iff w v)
turn_covers limit v w ws (d ∷ rest) p e h =
    ground (arith, eq_iff w v, is_in-append v p.remaining (w ∷ []))

pass_covers :
    (available limit : ℕ) (v : String) (ws : List String) (p : Progress)
    → (is_in v ws || is_in v p.remaining || is_exhausted limit p v) ≡ true
    → (leb available (length (pass available limit ws p).grants)
        || is_in v (pass available limit ws p).remaining
        || is_exhausted limit (pass available limit ws p) v)
      ≡ true
unfolding pass
pass_covers available limit v [] p h = ground arith
pass_covers available limit v (w ∷ ws) p h = elim (Bool-cases (leb available (length p.grants))) [
  | inl a ↦ rw a (rw a refl)
  | inr a ↦ rw a (pass_covers available limit v ws _ (turn_covers limit v w ws _ p refl h))
]

rounds_cover :
    (fuel available limit : ℕ) (v : String) (ws : List String) (p : Progress)
    → (leb available (length p.grants) || is_in v ws || is_exhausted limit p v) ≡ true
    → Holds
        (λ q. (leb available (length q.grants) || is_exhausted limit q v) ≡ true)
        (rounds fuel available limit ws p)
unfolding rounds
rounds_cover fuel available limit v [] p h = ground arith
rounds_cover zero available limit v (w ∷ ws) p h = tt
rounds_cover (suc fuel) available limit v (w ∷ ws) p h =
    elim (Bool-cases (leb available (length p.grants))) [
      | inl a ↦ rw (a, Holds, a) refl
      | inr a ↦ rw a (
          rounds_cover fuel available limit v _ _
            (pass_covers available limit v (w ∷ ws) (cleared p) (ground (arith, h, a))))
    ]

-- When the rounds end, all that was available is handed out, or each workspace of the rotation is at
-- the limit or has nothing that waits.
pub rounds_exhaust :
    (fuel available limit : ℕ) (v : String) (ws : List String) (p q : Progress)
    → rounds fuel available limit ws p ≡ some q
    → is_in v ws ≡ true
    → (leb available (length q.grants) || is_exhausted limit q v) ≡ true
rounds_exhaust fuel available limit v ws p q e m =
    subst (Holds (λ q. (leb available (length q.grants) || is_exhausted limit q v) ≡ true)) e
      (rounds_cover fuel available limit v ws p (ground (arith, m)))
