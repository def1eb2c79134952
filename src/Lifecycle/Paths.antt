-- ===== src/Lifecycle/Paths.antt =====
-- The transition table as a graph: services/analysis_lifecycle.py moves a Run along its edges only.
use crash_cap.Base.{ℕ, ◌+◌, ◌≤◌, ◌≡◌, refl, true, ◌⊎◌, ok, err, arith}
use crash_cap.Lifecycle.{
  State, uploaded, validating, inspected, matching_symbols, waiting_for_symbols, symbols_ready,
  queued, analyzing, normalizing, grouping, complete, cancelled, Status, known, terminal, active,
  allowed, Run, Error, transition_analysis,
}

-- A chain of moves, each of which the table allows.
infix 40 ◌⇝◌
pub data ◌⇝◌ : State → State → Type 0 where
  stay : {s : State} → s ⇝ s
  move : {s t u : State} → allowed s t ≡ true → t ⇝ u → s ⇝ u

-- How many stages a Run has behind it. Symbols may be matched again after a wait, so those two
-- states share a stage.
abbrev pub stage : State → ℕ
stage uploaded = 0
stage validating = 1
stage inspected = 2
stage matching_symbols = 3
stage waiting_for_symbols = 3
stage symbols_ready = 4
stage queued = 5
stage analyzing = 6
stage normalizing = 7
stage grouping = 8
stage _ = 9

-- A move never goes back a stage, and it stays in one only between the two states of symbol
-- matching.
pub stage-allowed :
    (s t : State) → allowed s t ≡ true → (stage s + 1 ≤ stage t) ⊎ ((stage s ≡ 3) × (stage t ≡ 3))
unfolding allowed
stage-allowed s t h = ground arith

-- No state is left once it is terminal, so a chain from it is empty.
pub ⇝-terminal : {s t : State} → s ⇝ t → terminal s ≡ true → s ≡ t
unfolding allowed
⇝-terminal stay h = refl
⇝-terminal (move {s} {t} e r) h = absurd (ground arith)

-- The straight way through the stages.
grouping-complete : grouping ⇝ complete
unfolding allowed
grouping-complete = move refl stay

analyzing-complete : analyzing ⇝ complete
unfolding allowed
analyzing-complete = move {t = normalizing} refl (move refl grouping-complete)

matching-complete : matching_symbols ⇝ complete
unfolding allowed
matching-complete =
    move {t = symbols_ready} refl (move {t = queued} refl (move refl analyzing-complete))

validating-complete : validating ⇝ complete
unfolding allowed
validating-complete = move {t = inspected} refl (move refl matching-complete)

active-complete : (s : State) → active s ≡ true → s ⇝ complete
unfolding allowed
active-complete uploaded h = move refl validating-complete
active-complete validating h = validating-complete
active-complete inspected h = move refl matching-complete
active-complete matching_symbols h = matching-complete
active-complete waiting_for_symbols h = move refl matching-complete
active-complete symbols_ready h = move {t = queued} refl (move refl analyzing-complete)
active-complete queued h = move refl analyzing-complete
active-complete analyzing h = analyzing-complete
active-complete normalizing h = move refl grouping-complete
active-complete grouping h = grouping-complete
active-complete _ h = absurd (ground arith)

active-cancelled : (s : State) → active s ≡ true → allowed s cancelled ≡ true
unfolding allowed
active-cancelled s h = ground arith

-- From every active state a chain of moves leads to `complete`, and one move to `cancelled`.
pub active_can_finish :
    (s : State) → active s ≡ true → (s ⇝ complete) × (allowed s cancelled ≡ true)
active_can_finish s h = (active-complete s h, active-cancelled s h)

-- A transition that is accepted is one move of the table.
pub transition_analysis-allowed :
    (run : Run) (s t : State) (now : ℕ)
    → run.status ≡ known s
    → (transition_analysis run (known t) now).0 ≡ ok tt
    → (allowed s t ≡ true) × ((transition_analysis run (known t) now).1.status ≡ known t)
unfolding transition_analysis
transition_analysis-allowed run s t now e h = ground arith

-- A transition that raises leaves the Run as it was.
pub transition_analysis_error :
    (run : Run) (t : Status) (now : ℕ) {x : Error}
    → (transition_analysis run t now).0 ≡ err x
    → (transition_analysis run t now).1 ≡ run
unfolding transition_analysis
transition_analysis_error run t now h = ground arith
