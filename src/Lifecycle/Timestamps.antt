-- ===== src/Lifecycle/Timestamps.antt =====
-- `started_at` and `finished_at` of a Run under services/analysis_lifecycle.py.
use crash_cap.Base.{
  not, ◌||◌, ℕ, String, ◌≡◌, refl, Bool, true, false, Option, none, is_some, List, [], ◌∷◌, arith,
}
use crash_cap.Lifecycle.{
  State, uploaded, analyzing, normalizing, grouping, Status, known, unknown, terminal, allowed, Run,
  transition_analysis, fail_analysis,
}
use crash_cap.Lifecycle.Failure.{failure_state-Classified}

-- The states of a Run that a Core has begun to execute and that is not over.
abbrev pub executing : State → Bool
executing analyzing = true
executing normalizing = true
executing grouping = true
executing _ = false

-- What the timestamps say of a Run in a state of the set.
abbrev pub StampedAt : Status → Option ℕ → Option ℕ → Type 0
StampedAt (known s) started finished =
    (is_some finished ≡ terminal s) × ((not (executing s) || is_some started) ≡ true)
StampedAt (unknown t) started finished = ⊥

abbrev pub IsStamped : Run → Type 0
IsStamped run = StampedAt run.status run.started_at run.finished_at

-- A transition, accepted or refused, keeps the timestamps in step with the state: `finished_at` is
-- set exactly on a terminal Run, and `started_at` is set on one that executes.
pub transition_analysis-IsStamped :
    (run : Run) (t : Status) (now : ℕ) → IsStamped run → IsStamped (transition_analysis run t now).1
unfolding transition_analysis allowed
transition_analysis-IsStamped run t now h = ground arith

-- So does `fail_analysis`.
pub fail_analysis-IsStamped :
    (run : Run) (code : String) (now : ℕ) → IsStamped run → IsStamped (fail_analysis run code now).1
unfolding fail_analysis transition_analysis allowed
fail_analysis-IsStamped run code now h = ground (arith, failure_state-Classified code)

-- What the workers and the API ask of a Run, in the order of the requests.
pub data Request : Type 0 where
  transition : Status → ℕ → Request
  fail : String → ℕ → Request

unfoldable pub serve_request : Run → Request → Run
unfolding transition_analysis fail_analysis
serve_request run (transition t now) = (transition_analysis run t now).1
serve_request run (fail code now) = (fail_analysis run code now).1

unfoldable pub serve_requests : Run → List Request → Run
serve_requests run [] = run
serve_requests run (r ∷ rs) = serve_requests (serve_request run r) rs

abbrev pub fresh : Run
fresh = record { status = known uploaded; started_at = none; finished_at = none }

serve_request-IsStamped :
    (run : Run) (r : Request) → IsStamped run → IsStamped (serve_request run r)
unfolding serve_request
serve_request-IsStamped run (transition t now) h = transition_analysis-IsStamped run t now h
serve_request-IsStamped run (fail code now) h = fail_analysis-IsStamped run code now h

-- If the timestamps of a Run agree with its state, they still do whatever transitions and failures are asked for,
-- legal or not.
pub serve_requests-IsStamped :
    (run : Run) (rs : List Request) → IsStamped run → IsStamped (serve_requests run rs)
unfolding serve_requests
serve_requests-IsStamped run [] h = h
serve_requests-IsStamped run (r ∷ rs) h =
    serve_requests-IsStamped (serve_request run r) rs (serve_request-IsStamped run r h)

-- A terminal Run answers no request: state and timestamps stay as they are.
serve_request-terminal :
    (run : Run) (r : Request) (s : State)
    → run.status ≡ known s
    → terminal s ≡ true
    → serve_request run r ≡ run
unfolding serve_request transition_analysis fail_analysis allowed
serve_request-terminal run (transition t now) s e h = ground arith
serve_request-terminal run (fail code now) s e h = ground arith

-- Whatever is asked of a terminal Run, its state and its timestamps stay as they are.
pub serve_requests-terminal :
    (run : Run) (rs : List Request) (s : State)
    → run.status ≡ known s
    → terminal s ≡ true
    → serve_requests run rs ≡ run
unfolding serve_requests
serve_requests-terminal run [] s e h = refl
serve_requests-terminal run (r ∷ rs) s e h =
    rw (serve_request-terminal run r s e h) (serve_requests-terminal run rs s e h)
