-- ===== src/Demands/Targets/Frozen.antt =====
-- What `freeze_target` (analysis_demands.py) leaves in the row of its demand.
use mathlib.Core.Path.{subst}
use crash_cap.Base.{
  ℕ, String, ◌≡◌, refl, ◌∙◌, sym, ap, not, ◌||◌, Option, none, some, Result, ok, err, present, ◌⊎◌,
  inl, inr, Bool-cases, arith,
}
use crash_cap.Base.Keys.{text_keys}
use crash_cap.Base.Table
use crash_cap.Base.Table.{row_at-save_self, key-row_at}
use crash_cap.Demand.{AnalysisDemand}
use crash_cap.Demands.Rows.{
  DumpInspection, AnalysisDemandTarget, Tables, DemandError, demand_not_found, demand_key,
  demand_at, save_demand,
}
use crash_cap.Demands.Targets.{
  Digests, Plan, target_of, same_target, manual_cycle, next_generation, planned, freezable, adopted,
  frozen, freeze_target,
}
use crash_cap.Demands.Targets.Replay.{freezable-Freezable}

-- The row is planned, in its generation or in the next one.
abbrev pub Planned : ℕ → ℕ → ℕ → AnalysisDemand → AnalysisDemand → Type 0
Planned sequence revision now d e =
    (e ≡ planned sequence revision now d) ⊎ (e ≡ planned sequence revision now (next_generation d))

adopted-saves :
    (s : Digests) (sequence : ℕ) (p : Plan) (now : ℕ) (d : AnalysisDemand) (i : DumpInspection)
    (o : Option AnalysisDemandTarget) (db : Tables)
    → (e : AnalysisDemand) × Planned sequence db.revision now d e
      × ((adopted s sequence p now d i o db).1.demands ≡ (save_demand e db).demands)
unfolding adopted save_demand
adopted-saves s sequence p now d i none db = (_, inr refl, refl)
adopted-saves s sequence p now d i (some t) db =
    elim (Bool-cases (manual_cycle p sequence d || not (same_target s p (some t)))) [
      | inl c ↦ rw c (_, inr refl, refl)
      | inr c ↦ rw c (_, inl refl, refl)
    ]

ok-eq : {a b : AnalysisDemand} → ◌≡◌ {A = Result DemandError AnalysisDemand} (ok a) (ok b) → a ≡ b
ok-eq h = cc

demand_at-found :
    (id : String) (db : Tables) (d : AnalysisDemand)
    → demand_at id db ≡ ok d
    → Table.row_at demand_key id db.demands ≡ some d
unfolding demand_at
demand_at-found id db d h = present-some (Table.row_at demand_key id db.demands) h
  where
    present-some : (o : Option AnalysisDemand) → present o demand_not_found ≡ ok d → o ≡ some d
    present-some none e = absurd (ground (arith, e))
    present-some (some x) e = ap (λ y. some y) (ok-eq e)

some-eq : {a b : AnalysisDemand} → some a ≡ some b → a ≡ b
some-eq h = cc

Planned-id :
    (sequence revision now : ℕ) (d e : AnalysisDemand)
    → Planned sequence revision now d e
    → e.id ≡ d.id
unfolding planned
Planned-id sequence revision now d e (inl h) = ap (λ x. x.id) h
Planned-id sequence revision now d e (inr h) = ap (λ x. x.id) h

module _ (s : Digests) (id : String) (sequence : ℕ) (p : Plan) (now : ℕ) (db : Tables)
    (d e : AnalysisDemand) (at : Table.row_at demand_key id db.demands ≡ some d) where
  -- What is found where a row was saved is that row.
  saved-row :
      (x : AnalysisDemand) (after : Tables)
      → Planned sequence db.revision now d x
      → after.demands ≡ (save_demand x db).demands
      → Table.row_at demand_key id after.demands ≡ some e
      → Planned sequence db.revision now d e
  unfolding save_demand
  saved-row x after pl same found =
      subst (Planned sequence db.revision now d)
        (some-eq (
          sym (
            row_at-save_self demand_key x id db.demands (
              Planned-id sequence db.revision now d x pl
              ∙ key-row_at demand_key id db.demands {a = d} at))
          ∙ (sym (ap (Table.row_at demand_key id) same) ∙ found)))
        pl

  adopted-row :
      (i : DumpInspection) (o : Option AnalysisDemandTarget)
      → Table.row_at demand_key id (adopted s sequence p now d i o db).1.demands ≡ some e
      → Planned sequence db.revision now d e
  adopted-row i o found =
      let (x, pl, same) = adopted-saves s sequence p now d i o db in
      saved-row x (adopted s sequence p now d i o db).1 pl same found

  result-row :
      (r : Result DemandError (AnalysisDemand × DumpInspection))
      → freezable s id sequence p now db ≡ r
      → Table.row_at demand_key id (frozen s sequence p now r db).1.demands ≡ some e
      → (e ≡ d) ⊎ ((d.change_sequence ≡ sequence) × Planned sequence db.revision now d e)
  unfolding frozen
  result-row (err x) f found = inl (some-eq (sym found ∙ at))
  result-row (ok (d', i)) f found =
      let g = freezable-Freezable s id sequence p now db d' i f in
      let own : d' ≡ d = some-eq (sym g.found ∙ at) in
      inr (
        sym (ap (λ x. x.change_sequence) own) ∙ g.met,
        adopted-row i (target_of d db.targets) (
            subst
              (λ x.
                Table.row_at demand_key id
                  (adopted s sequence p now x i (target_of x db.targets) db).1.demands
                ≡ some e)
              own found),
      )

-- The call leaves the row as it is, or the plan was made at its change sequence and the row is planned.
pub freeze_target-row :
    (s : Digests) (id : String) (sequence : ℕ) (p : Plan) (now : ℕ) (db : Tables)
    (d e : AnalysisDemand)
    → demand_at id db ≡ ok d
    → demand_at id (freeze_target s id sequence p now db).1 ≡ ok e
    → (e ≡ d) ⊎ ((d.change_sequence ≡ sequence) × Planned sequence db.revision now d e)
unfolding freeze_target
freeze_target-row s id sequence p now db d e at after =
    result-row s id sequence p now db d e (demand_at-found id db d at)
      (freezable s id sequence p now db) refl (demand_at-found id _ e after)
