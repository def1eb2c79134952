-- ===== src/Demands/Changes/Coalescing.antt =====
-- Changes coalesce, and do not put an analysis off for ever (analysis_demands.py).
use crash_cap.Base.{
  ℕ, ◌+◌, ◌≤◌, ◌<◌, min, ap, ◌||◌, String, ◌≡◌, refl, true, none, some, List, [], ◌∷◌, All, seconds,
  if◌then◌else◌, inl, inr, Bool-cases, arith, lt→ltb, le→leb,
}
use crash_cap.Demand.{AnalysisDemand, DemandState, coalescing, is_waiting}
use crash_cap.Scheduler.Ranking.{is_due}
use crash_cap.Demands.Rows.{DumpBlob, live}
use crash_cap.Demands.Changes.{is_held, first_event, coalesced, note_change}

-- A sequence of changes, each with its cause and its instant.
unfoldable pub note_changes : DumpBlob → List (String × ℕ) → AnalysisDemand → AnalysisDemand
note_changes blob [] d = d
note_changes blob ((cause, t) ∷ cs) d = note_changes blob cs (note_change cause blob t d)

-- The demand is due within a minute of its first event.
abbrev DueBy : ℕ → AnalysisDemand → Type 0
DueBy first d =
    (0 < d.generation)
    × ((is_waiting d.state || is_held d.state) ≡ true)
    × (d.first_event_at ≡ some first)
    × ((t : ℕ) × (d.not_before ≡ some t) × (t ≤ first + seconds 60))

held_or_coalescing :
    (s : DemandState)
    → (is_waiting (if is_held s then s else coalescing)
        || is_held (if is_held s then s else coalescing))
      ≡ true
held_or_coalescing s = elim (Bool-cases (is_held s)) [
  | inl e ↦ rw e (ground (arith, e))
  | inr e ↦ rw e refl
]

note_change-DueBy :
    (cause : String) (blob : DumpBlob) (first t : ℕ) (d : AnalysisDemand)
    → live blob t ≡ true
    → 0 < d.generation
    → first_event d t ≡ first
    → DueBy first (note_change cause blob t d)
unfolding note_change coalesced
note_change-DueBy cause blob first t d l g f =
    rw (l, lt→ltb _ _ g)
      (
        g,
        held_or_coalescing d.state,
        ap some f,
        (min (t + seconds 30) (first_event d t + seconds 60), refl, omega (arith, f)),
      )

note_changes-DueBy :
    (blob : DumpBlob) (first : ℕ) (cs : List (String × ℕ)) (d : AnalysisDemand)
    → All (λ c. live blob c.1 ≡ true) cs
    → DueBy first d
    → DueBy first (note_changes blob cs d)
unfolding note_changes
note_changes-DueBy blob first [] d a h = h
note_changes-DueBy blob first ((cause, t) ∷ cs) d a h =
    note_changes-DueBy blob first cs _ a.1
      (note_change-DueBy cause blob first t d a.0 h.0 (rw h.2 refl))

-- However many changes follow the first one, and whenever they do: a demand that has been analysed
-- before is due within a minute of the first, and it waits for a slot unless a Run or a pause holds it.
pub note_changes-due :
    (blob : DumpBlob) (cause : String) (t : ℕ) (cs : List (String × ℕ)) (d : AnalysisDemand)
    → 0 < d.generation
    → d.first_event_at ≡ none
    → All (λ c. live blob c.1 ≡ true) ((cause, t) ∷ cs)
    → let d' = note_changes blob ((cause, t) ∷ cs) d in
      (is_due d'.not_before (t + seconds 60) ≡ true)
      × ((is_waiting d'.state || is_held d'.state) ≡ true)
unfolding note_changes
note_changes-due blob cause t cs d g n a =
    let h =
      note_changes-DueBy blob t cs (note_change cause blob t d) a.1
        (note_change-DueBy cause blob t t d a.0 g (rw n refl)) in
    (rw h.3.1 (le→leb _ _ h.3.2), h.1)
