-- ===== src/Demands/Targets/Replay.antt =====
-- A plan is frozen once (analysis_demands.py).
use crash_cap.Base.{
  ℕ, ◌+◌, String, ◌≡◌, refl, ◌∙◌, Bool, true, false, not, ◌||◌, Option, none, some, List, [], ◌∷◌,
  ◌++◌, ltb, first_where, ok, inl, inr, Bool-cases, lt→ltb, arith,
}
use crash_cap.Base.Keys.{◌==◌, text_keys}
use crash_cap.Base.Table
use crash_cap.Base.Table.{row_at-save_self, key-row_at}
use package.text.Mathlib.TextEquality.{eq_iff}
use crash_cap.Demand.{AnalysisDemand}
use crash_cap.Demands.Rows.{
  DumpInspection, AnalysisDemandTarget, Tables, demand_key, demand_at, blob_at, save_demand,
}
use crash_cap.FrozenInputs.{resolution_fingerprint}
use crash_cap.Demands.Targets.{
  Digests, Plan, of_generation, target_of, same_target, manual_cycle, new_target, next_generation,
  planned, plan_checks, freezable, adopted, frozen, Freezing, freeze_target,
}

first_where-append :
    (p : AnalysisDemandTarget → Bool) (ts : List AnalysisDemandTarget) (t : AnalysisDemandTarget)
    → first_where p ts ≡ none
    → p t ≡ true
    → first_where p (ts ++ t ∷ []) ≡ some t
first_where-append p [] t h k = rw k refl
first_where-append p (x ∷ xs) t h k = elim (Bool-cases (p x)) [
  | inl e ↦ absurd (ground (arith, h, e))
  | inr e ↦ rw e (first_where-append p xs t (ground (arith, h, e)) k)
]

self_eq : (s : String) → (s == s) ≡ true
self_eq s = ground (arith, eq_iff s s)

-- What a plan that may be frozen has found.
pub record Freezable (s : Digests) (id : String) (sequence : ℕ) (p : Plan) (now : ℕ) (db : Tables)
    (d : AnalysisDemand) (i : DumpInspection) : Type 0 where
  pub found : Table.row_at demand_key id db.demands ≡ some d
  pub checked : plan_checks s sequence p now db d.inspection_id d.change_sequence ≡ ok i
  pub met : d.change_sequence ≡ sequence

plan_checks-met :
    (s : Digests) (sequence : ℕ) (p : Plan) (now : ℕ) (db : Tables) (inspection : Option String)
    (current : ℕ) (i : DumpInspection)
    → plan_checks s sequence p now db inspection current ≡ ok i
    → current ≡ sequence
unfolding plan_checks
plan_checks-met s sequence p now db inspection current i h = ground (arith, h)

pub freezable-Freezable :
    (s : Digests) (id : String) (sequence : ℕ) (p : Plan) (now : ℕ) (db : Tables)
    (d : AnalysisDemand) (i : DumpInspection)
    → freezable s id sequence p now db ≡ ok (d, i)
    → Freezable s id sequence p now db d i
unfolding freezable demand_at
freezable-Freezable s id sequence p now db d i h =
    let checked : plan_checks s sequence p now db d.inspection_id d.change_sequence ≡ ok i =
      ground (arith, h) in
    record {
      found = ground (arith, h);
      checked = checked;
      met = plan_checks-met s sequence p now db d.inspection_id d.change_sequence i checked;
    }

-- The demand that a freezing leaves may be frozen again.
freezable_again :
    (s : Digests) (id : String) (sequence : ℕ) (p : Plan) (later : ℕ) (db : Tables)
    (d d' : AnalysisDemand) (i : DumpInspection) (ts : List AnalysisDemandTarget)
    → Freezable s id sequence p later db d i
    → d'.id ≡ d.id
    → d'.change_sequence ≡ d.change_sequence
    → d'.inspection_id ≡ d.inspection_id
    → freezable s id sequence p later (record (save_demand d' db) { targets = ts }) ≡ ok (d', i)
unfolding freezable demand_at save_demand plan_checks blob_at
freezable_again s id sequence p later db d d' i ts g a b c =
    let key = key-row_at demand_key id db.demands g.found in
    rw (row_at-save_self demand_key d' id db.demands (a ∙ key), b, c, g.checked) refl

adopted_again :
    (s : Digests) (sequence : ℕ) (p : Plan) (later : ℕ) (d : AnalysisDemand) (i : DumpInspection)
    (t : AnalysisDemandTarget) (db : Tables)
    → d.planned_sequence ≡ sequence
    → same_target s p (some t) ≡ true
    → adopted s sequence p later d i (some t) db
      ≡ (ok t, save_demand (planned sequence db.revision later d) db)
unfolding adopted
adopted_again s sequence p later d i t db e h =
    let over : ltb d.planned_sequence sequence ≡ false = ground (arith, e) in
    elim (Bool-cases (p.cause == "manual")) [
      | inl m ↦ rw (over, h, m) refl
      | inr m ↦ rw (over, h, m) refl
    ]

same_target-new_target :
    (s : Digests) (p : Plan) (revision now : ℕ) (i : DumpInspection) (d : AnalysisDemand)
    → same_target s p (some (new_target s p revision now i d)) ≡ true
unfolding same_target
same_target-new_target s p revision now i d = ground (
  arith,
  self_eq (resolution_fingerprint s.fingerprint p.manifest),
  self_eq p.context_sha256,
  self_eq p.cause,
)

-- On the tables that a call leaves, the call returns the same and adds no target.
SameAgain : (s : Digests) (id : String) (sequence : ℕ) (p : Plan) (later : ℕ) → Freezing → Type 0
SameAgain s id sequence p later r =
    ((freeze_target s id sequence p later r.1).0 ≡ r.0)
    × ((freeze_target s id sequence p later r.1).1.targets ≡ r.1.targets)

-- The demand `d'` that a freezing saves has the target `t`.
frozen_again :
    (s : Digests) (id : String) (sequence : ℕ) (p : Plan) (later : ℕ) (db : Tables)
    (d d' : AnalysisDemand) (i : DumpInspection) (ts : List AnalysisDemandTarget)
    (t : AnalysisDemandTarget)
    → Freezable s id sequence p later db d i
    → d'.id ≡ d.id
    → d'.change_sequence ≡ d.change_sequence
    → d'.inspection_id ≡ d.inspection_id
    → d'.planned_sequence ≡ sequence
    → target_of d' ts ≡ some t
    → same_target s p (some t) ≡ true
    → SameAgain s id sequence p later (ok t, record (save_demand d' db) { targets = ts })
unfolding SameAgain freeze_target frozen save_demand
frozen_again s id sequence p later db d d' i ts t g a b c e f h =
    let again = freezable_again s id sequence p later db d d' i ts g a b c in
    let adopt =
      adopted_again s sequence p later d' i t (record (save_demand d' db) { targets = ts }) e h in
    rw (again, f, adopt) (refl, refl)

same_of : (a b : Bool) → (a || not b) ≡ false → b ≡ true
same_of a b e = ground (arith, e)

module _ (s : Digests) (id : String) (sequence : ℕ) (p : Plan) (now later : ℕ) (db : Tables)
    (d : AnalysisDemand) (i : DumpInspection) (g : Freezable s id sequence p later db d i)
    (free : first_where (of_generation d.id (d.generation + 1)) db.targets ≡ none) where
  new_generation_repeats :
      let t = new_target s p db.revision now i d in
      SameAgain s id sequence p later (
        ok t,
        record (save_demand (planned sequence db.revision now (next_generation d)) db) {
          targets = db.targets ++ t ∷ [];
        },
      )
  unfolding planned target_of
  new_generation_repeats =
      let t = new_target s p db.revision now i d in
      let positive : ltb 0 (d.generation + 1) ≡ true = lt→ltb 0 (d.generation + 1) (omega arith) in
      let mine : of_generation d.id (d.generation + 1) t ≡ true = ground (arith, self_eq d.id) in
      frozen_again s id sequence p later db d (planned sequence db.revision now (next_generation d))
        i (db.targets ++ t ∷ []) t g refl refl refl refl
        (rw positive
          (first_where-append (of_generation d.id (d.generation + 1)) db.targets t free mine))
        (same_target-new_target s p db.revision now i d)

  target_of-planned :
      {o : Option AnalysisDemandTarget}
      → target_of d db.targets ≡ o
      → target_of (planned sequence db.revision now d) db.targets ≡ o
  unfolding planned target_of
  target_of-planned f = f

  adopted_repeats :
      (o : Option AnalysisDemandTarget)
      → target_of d db.targets ≡ o
      → SameAgain s id sequence p later (adopted s sequence p now d i o db)
  unfolding adopted planned save_demand
  adopted_repeats none f = new_generation_repeats
  adopted_repeats (some t) f =
      elim (Bool-cases (manual_cycle p sequence d || not (same_target s p (some t)))) [
        | inl e ↦ rw e new_generation_repeats
        | inr e ↦ rw e (
            frozen_again s id sequence p later db d (planned sequence db.revision now d) i
              db.targets t g refl refl refl refl (target_of-planned f) (same_of _ _ e))
      ]

-- A plan that was frozen is frozen once: while the demand and its dump still admit it, the same call returns
-- the same target and adds none, if the demand has no target of a generation to come.
pub freeze_target_repeats :
    (s : Digests) (id : String) (sequence : ℕ) (p : Plan) (now later : ℕ) (db : Tables)
    (d : AnalysisDemand) (i : DumpInspection)
    → freezable s id sequence p now db ≡ ok (d, i)
    → freezable s id sequence p later db ≡ ok (d, i)
    → first_where (of_generation d.id (d.generation + 1)) db.targets ≡ none
    → let first = freeze_target s id sequence p now db in
      let again = freeze_target s id sequence p later first.1 in
      (again.0 ≡ first.0) × (again.1.targets ≡ first.1.targets)
unfolding freeze_target frozen SameAgain
freeze_target_repeats s id sequence p now later db d i f g n = rw f (
    adopted_repeats s id sequence p now later db d i
      (freezable-Freezable s id sequence p later db d i g) n (target_of d db.targets) refl)
