-- ===== src/Lifecycle/Failure.antt =====
-- What `fail_analysis` of services/analysis_lifecycle.py does in each state.
use crash_cap.Base.{
  ℕ, String, ◌≡◌, Bool, true, false, none, some, ◌⊎◌, ok, err, arith, if◌then◌else◌,
}
use crash_cap.Lifecycle.{
  State, uploaded, validating, grouping, failed, rejected, timeout, oom, known, terminal, active,
  failure_state, Run, conflict, transition_analysis, fail_analysis,
}

-- Where the target that a code is classified to can be entered from.
abbrev pub can_enter : State → State → Bool
can_enter uploaded rejected = true
can_enter validating rejected = true
can_enter _ rejected = false
can_enter grouping timeout = false
can_enter grouping oom = false
can_enter _ _ = true

abbrev pub Classified : State → Type 0
Classified t = (t ≡ timeout) ⊎ (t ≡ oom) ⊎ (t ≡ rejected) ⊎ (t ≡ failed)

-- The four states that an error code can be classified to.
pub failure_state-Classified : (c : String) → Classified (failure_state c)
unfolding failure_state
failure_state-Classified c = ground arith

-- On a terminal Run `fail_analysis` does nothing and returns `None`.
pub fail_analysis-terminal :
    (run : Run) (s : State) (code : String) (now : ℕ)
    → run.status ≡ known s
    → terminal s ≡ true
    → fail_analysis run code now ≡ (ok none, run)
unfolding fail_analysis
fail_analysis-terminal run s code now e h = ground arith

-- On an active Run it ends in the classified state exactly where the table lets that state be
-- entered; elsewhere it raises the conflict and the Run stays as it was.
pub fail_analysis-active :
    (run : Run) (s : State) (code : String) (now : ℕ)
    → run.status ≡ known s
    → active s ≡ true
    → if can_enter s (failure_state code)
      then ((fail_analysis run code now).0 ≡ ok (some (failure_state code)))
        × ((fail_analysis run code now).1.status ≡ known (failure_state code))
      else (fail_analysis run code now ≡ (err (conflict s (failure_state code)), run))
unfolding fail_analysis transition_analysis
fail_analysis-active run s code now e h = ground (arith, failure_state-Classified code)
