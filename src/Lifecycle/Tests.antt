-- ===== src/Lifecycle/Tests.antt =====
-- Runs of the lifecycle on concrete Runs, and instances of its theorems.
use crash_cap.Base.{◌≡◌, refl, some, none, List, [], ◌∷◌, ok, err}
use crash_cap.Lifecycle.{
  analyzing, complete, rejected, timeout, known, unknown, Run, conflict, failure_state,
  fail_analysis,
}
use crash_cap.Lifecycle.Failure.{fail_analysis-active}
use crash_cap.Lifecycle.Timestamps.{
  IsStamped, Request, transition, fail, fresh, serve_requests, serve_requests-IsStamped,
  serve_requests-terminal,
}

abbrev at_work : Run
at_work = record { status = known analyzing; started_at = some 5; finished_at = none }

abbrev over : Run
over = record { status = known complete; started_at = some 5; finished_at = some 9 }

fail_analysis-active_example :
    ((fail_analysis at_work "CORE_STAGE_TIMEOUT" 7).0 ≡ ok (some timeout))
    × ((fail_analysis at_work "CORE_STAGE_TIMEOUT" 7).1.status ≡ known timeout)
unfolding failure_state
fail_analysis-active_example =
    fail_analysis-active at_work analyzing "CORE_STAGE_TIMEOUT" 7 refl refl

-- A dump that the Core finds corrupt while the Run is analyzed.
corrupt_while_analyzing :
    fail_analysis at_work "CORRUPT_DUMP" 7 ≡ (err (conflict analyzing rejected), at_work)
unfolding failure_state
corrupt_while_analyzing = fail_analysis-active at_work analyzing "CORRUPT_DUMP" 7 refl refl

abbrev script : List Request
script =
    transition (known complete) 1
    ∷ fail "OOM" 2
    ∷ transition (unknown "LOST") 3
    ∷ fail "TIMEOUT" 4
    ∷ []

serve_requests-IsStamped_example : IsStamped (serve_requests fresh script)
serve_requests-IsStamped_example = serve_requests-IsStamped fresh script (refl, refl)

serve_requests-terminal_example : serve_requests over script ≡ over
serve_requests-terminal_example = serve_requests-terminal over script complete refl refl
