-- ===== src/Demands/History.antt =====
-- A demand through any sequence of the calls of analysis_demands.py that change it.
use mathlib.Core.Path.{subst}
use crash_cap.Base.{
  ◌≡◌, refl, ◌∙◌, ℕ, ◌+◌, ◌≤◌, String, Bool, true, none, some, inl, inr, Bool-cases, arith, sym,
  ◌⊎◌, ok,
}
use crash_cap.Demand.{AnalysisDemand}
use crash_cap.Demands.Rows.{DumpBlob, Tables, live, demand_at}
use crash_cap.Demands.Changes.{prepared_for, note_change, coalesced}
use crash_cap.Demands.Settlement.{
  RetrySettings, retried, settle_runtime_failure, restore_pending_change, pending_change,
  planning_failed, settle_demand_after_execution_failure, compared, settle_demand_after_comparison,
  Pending, stamped,
}
use crash_cap.Evidence.Decision.{ComparisonDecision}
use crash_cap.Demands.Settlement.Budget.{Settled, planning, execution, comparison, settle}
use crash_cap.Demands.Inspections.{registered, unregistered}
use crash_cap.Demands.Targets.{Digests, Plan, planned, next_generation, freeze_target}
use crash_cap.Demands.Targets.Frozen.{Planned, freeze_target-row}

-- What a call does to the row of a demand where its checks pass. `freeze_target` is called with any plan, sequence
-- and tables, and the step is from the row that it finds there to the row that it leaves, whatever it
-- answers.
pub data Step (s : RetrySettings) : AnalysisDemand → AnalysisDemand → Type 0 where
  changes :
      (cause : String) (blob : DumpBlob) (now : ℕ) (d : AnalysisDemand)
      → Step s d (note_change cause blob now d)
  restarts : (now : ℕ) (d : AnalysisDemand) → Step s d (prepared_for "manual" now d)
  restores : (now : ℕ) (d : AnalysisDemand) → Step s d (prepared_for "dump_restored" now d)
  settles : (e : Settled) (d : AnalysisDemand) → Step s d (settle s e d)
  registers :
      (inspection : String) (revision now : ℕ) (d : AnalysisDemand)
      → Step s d (registered inspection revision now d)
  loses_dump : (now : ℕ) (d : AnalysisDemand) → Step s d (unregistered now d)
  freezes :
      (g : Digests) (id : String) (sequence : ℕ) (p : Plan) (now : ℕ) (db : Tables)
      (d e : AnalysisDemand)
      → demand_at id db ≡ ok d
      → demand_at id (freeze_target g id sequence p now db).1 ≡ ok e
      → Step s d e

pub data Steps (s : RetrySettings) : AnalysisDemand → AnalysisDemand → Type 0 where
  done : (d : AnalysisDemand) → Steps s d d
  step : (d e f : AnalysisDemand) → Step s d e → Steps s e f → Steps s d f

-- The row stays that of its demand, its counters do not go back, and nothing is planned that has not happened.
pub record Grown (d d' : AnalysisDemand) : Type 0 where
  pub same_id : d'.id ≡ d.id
  pub generation : d.generation ≤ d'.generation
  pub change_sequence : d.change_sequence ≤ d'.change_sequence
  pub planned_sequence : d.planned_sequence ≤ d'.planned_sequence
  pub not_ahead : d'.planned_sequence ≤ d'.change_sequence

-- A call that leaves the counters as they are.
record Counted (d d' : AnalysisDemand) : Type 0 where
  id : d'.id ≡ d.id
  generation : d'.generation ≡ d.generation
  change_sequence : d'.change_sequence ≡ d.change_sequence
  planned_sequence : d'.planned_sequence ≡ d.planned_sequence

module _ (s : RetrySettings) (now : ℕ) (d : AnalysisDemand) where
  retried-Counted : (again spent : String) → Counted d (retried again spent s now d)
  unfolding retried
  retried-Counted again spent = record {
    id = ground arith;
    generation = ground arith;
    change_sequence = ground arith;
    planned_sequence = ground arith;
  }

  settle_runtime_failure-Counted :
      (blob : DumpBlob) (cause code phase : String) (retryable : Bool)
      → Counted d (settle_runtime_failure blob cause code phase retryable s now d)
  unfolding settle_runtime_failure retried
  settle_runtime_failure-Counted blob cause code phase retryable = record {
    id = ground arith;
    generation = ground arith;
    change_sequence = ground arith;
    planned_sequence = ground arith;
  }

  compared-Counted :
      (blob : DumpBlob) (v : ComparisonDecision) (promoted : Bool)
      → Counted d (compared blob v promoted s now d)
  unfolding compared retried
  compared-Counted blob v promoted = record {
    id = ground arith;
    generation = ground arith;
    change_sequence = ground arith;
    planned_sequence = ground arith;
  }

restored-Counted :
    (blob : DumpBlob) (p : Pending) (now : ℕ) (d d' : AnalysisDemand)
    → Counted d d'
    → Counted d (restore_pending_change blob p now d')
unfolding restore_pending_change
restored-Counted blob none now d d' h = h
restored-Counted blob (some (reason, at)) now d d' h = elim (Bool-cases (live blob now)) [
  | inl e ↦ rw e (record {
    id = h.id;
    generation = h.generation;
    change_sequence = h.change_sequence;
    planned_sequence = h.planned_sequence;
  })
  | inr e ↦ rw e h
]

stamped-Counted : (now : ℕ) (d e : AnalysisDemand) → Counted d e → Counted d (stamped now e)
stamped-Counted now d e h = record {
  id = h.id;
  generation = h.generation;
  change_sequence = h.change_sequence;
  planned_sequence = h.planned_sequence;
}

-- One more change.
ahead :
    (d e : AnalysisDemand)
    → e.id ≡ d.id
    → e.generation ≡ d.generation
    → e.change_sequence ≡ d.change_sequence + 1
    → e.planned_sequence ≡ d.planned_sequence
    → d.planned_sequence ≤ d.change_sequence
    → Grown d e
ahead d e a b c p h = record {
  same_id = a;
  generation = omega (arith, b);
  change_sequence = omega (arith, c);
  planned_sequence = omega (arith, p);
  not_ahead = omega (arith, c, p, h);
}

settle-Counted : (s : RetrySettings) (e : Settled) (d : AnalysisDemand) → Counted d (settle s e d)
unfolding settle planning_failed settle_demand_after_execution_failure
    settle_demand_after_comparison
settle-Counted s (planning none cause code now) d = record {
  id = refl;
  generation = refl;
  change_sequence = refl;
  planned_sequence = refl;
}
settle-Counted s (planning (some blob) cause code now) d =
    let h = settle_runtime_failure-Counted s now d blob cause code "planning" true in
    record {
      id = h.id;
      generation = h.generation;
      change_sequence = h.change_sequence;
      planned_sequence = h.planned_sequence;
    }
settle-Counted s (execution blob cause code retryable now) d = stamped-Counted now d _ (
    restored-Counted blob (pending_change d) now d _
      (settle_runtime_failure-Counted s now d blob cause code "execution" retryable))
settle-Counted s (comparison blob v promoted now) d =
    stamped-Counted now d _
      (restored-Counted blob (pending_change d) now d _ (compared-Counted s now d blob v promoted))

same-Grown : (d : AnalysisDemand) → d.planned_sequence ≤ d.change_sequence → Grown d d
same-Grown d h = record {
  same_id = refl;
  generation = omega arith;
  change_sequence = omega arith;
  planned_sequence = omega arith;
  not_ahead = h;
}

planned-Grown :
    (d : AnalysisDemand) (sequence revision now : ℕ)
    → d.change_sequence ≡ sequence
    → d.planned_sequence ≤ d.change_sequence
    → Grown d (planned sequence revision now d)
      × Grown d (planned sequence revision now (next_generation d))
unfolding planned
planned-Grown d sequence revision now e h = (
  record {
    same_id = refl;
    generation = omega arith;
    change_sequence = omega arith;
    planned_sequence = omega (arith, e, h);
    not_ahead = omega (arith, e);
  },
  record {
    same_id = refl;
    generation = omega arith;
    change_sequence = omega arith;
    planned_sequence = omega (arith, e, h);
    not_ahead = omega (arith, e);
  },
)

frozen-Grown :
    (d e : AnalysisDemand) (sequence revision now : ℕ)
    → (e ≡ d) ⊎ ((d.change_sequence ≡ sequence) × Planned sequence revision now d e)
    → d.planned_sequence ≤ d.change_sequence
    → Grown d e
frozen-Grown d e sequence revision now (inl same) h = subst (Grown d) (sym same) (same-Grown d h)
frozen-Grown d e sequence revision now (inr (met, inl is)) h =
    subst (Grown d) (sym is) (planned-Grown d sequence revision now met h).0
frozen-Grown d e sequence revision now (inr (met, inr is)) h =
    subst (Grown d) (sym is) (planned-Grown d sequence revision now met h).1

Step-Grown :
    (s : RetrySettings) (d e : AnalysisDemand)
    → Step s d e
    → d.planned_sequence ≤ d.change_sequence
    → Grown d e
unfolding note_change coalesced planned
Step-Grown s _ _ (changes cause blob now d) h = record {
  same_id = ground arith;
  generation = ground arith;
  change_sequence = ground arith;
  planned_sequence = ground arith;
  not_ahead = ground (arith, h);
}
Step-Grown s _ _ (restarts now d) h = ahead d _ refl refl refl refl h
Step-Grown s _ _ (restores now d) h = ahead d _ refl refl refl refl h
Step-Grown s _ _ (registers inspection revision now d) h = ahead d _ refl refl refl refl h
Step-Grown s _ _ (loses_dump now d) h = record {
  same_id = refl;
  generation = omega arith;
  change_sequence = omega arith;
  planned_sequence = omega arith;
  not_ahead = h;
}
Step-Grown s _ _ (settles x d) h =
    let k = settle-Counted s x d in
    record {
      same_id = k.id;
      generation = omega (arith, k.generation);
      change_sequence = omega (arith, k.change_sequence);
      planned_sequence = omega (arith, k.planned_sequence);
      not_ahead = omega (arith, h, k.planned_sequence, k.change_sequence);
    }
Step-Grown s _ _ (freezes g id sequence p now db d e at after) h =
    frozen-Grown d e sequence db.revision now
      (freeze_target-row g id sequence p now db d e at after) h

-- Whatever calls follow, in whatever order: the counters of a demand do not go back, and no change counts as
-- planned before it has happened, if that held at first.
pub steps-Grown :
    (s : RetrySettings) (d e : AnalysisDemand)
    → Steps s d e
    → d.planned_sequence ≤ d.change_sequence
    → Grown d e
steps-Grown s _ _ (done d) h = record {
  same_id = refl;
  generation = omega arith;
  change_sequence = omega arith;
  planned_sequence = omega arith;
  not_ahead = h;
}
steps-Grown s _ _ (step d m e one rest) h =
    let a = Step-Grown s d m one h in
    let b = steps-Grown s m e rest a.not_ahead in
    record {
      same_id = b.same_id ∙ a.same_id;
      generation = omega (arith, a.generation, b.generation);
      change_sequence = omega (arith, a.change_sequence, b.change_sequence);
      planned_sequence = omega (arith, a.planned_sequence, b.planned_sequence);
      not_ahead = b.not_ahead;
    }
