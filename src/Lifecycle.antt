-- ===== src/Lifecycle.antt =====
-- The state machine of an Analysis Run: platform/api/crashcap_api/analysis_states.py and
-- services/analysis_lifecycle.py beside it. A method that mutates the `AnalysisRun` row returns the
-- row that it leaves beside what it raises or returns. `utcnow()` is the argument `now`. Metric
-- counters and log lines are left out.
pub mod Paths
pub mod Failure
pub mod Timestamps
mod Tests
use mathlib.Core.Bool.{not}
use crash_cap.Base.{
  ℕ, String, Bool, true, false, ◌&&◌, ◌||◌, Option, none, some, if◌then◌else◌, is_some, Result, ok,
  err,
}
use crash_cap.Base.Keys.{◌==◌, text_keys}

-- ANALYSIS_STATES. A status text outside the set is `unknown`.
pub data State : Type 0 where
  uploaded validating inspected matching_symbols waiting_for_symbols symbols_ready : State
  queued analyzing normalizing grouping : State
  complete partial failed rejected cancelled timeout oom : State

pub State-discrete : Discrete State
State-discrete = hlevel

pub data Status : Type 0 where
  known : State → Status
  unknown : String → Status

abbrev pub is_known : Status → Bool
is_known (known s) = true
is_known (unknown s) = false

-- CURRENT_ELIGIBLE_STATES
abbrev pub current_eligible : State → Bool
current_eligible complete = true
current_eligible partial = true
current_eligible _ = false

-- FAILURE_STATES
abbrev pub is_failure : State → Bool
is_failure failed = true
is_failure rejected = true
is_failure cancelled = true
is_failure timeout = true
is_failure oom = true
is_failure _ = false

-- TERMINAL_STATES = CURRENT_ELIGIBLE_STATES | FAILURE_STATES
abbrev pub terminal : State → Bool
terminal s = current_eligible s || is_failure s

-- ACTIVE_STATES = ANALYSIS_STATES - TERMINAL_STATES
abbrev pub active : State → Bool
active s = not (terminal s)

-- The targets that six rows of the table share.
abbrev pub stops : State → Bool
stops failed = true
stops timeout = true
stops oom = true
stops cancelled = true
stops _ = false

-- ANALYSIS_TRANSITIONS: whether the second state is in the row of the first.
unfoldable pub allowed : State → State → Bool
allowed uploaded validating = true
allowed uploaded cancelled = true
allowed uploaded _ = false
allowed validating inspected = true
allowed validating rejected = true
allowed validating t = stops t
allowed inspected matching_symbols = true
allowed inspected t = stops t
allowed matching_symbols symbols_ready = true
allowed matching_symbols waiting_for_symbols = true
allowed matching_symbols t = stops t
allowed waiting_for_symbols matching_symbols = true
allowed waiting_for_symbols t = stops t
allowed symbols_ready queued = true
allowed symbols_ready t = stops t
allowed queued analyzing = true
allowed queued t = stops t
allowed analyzing normalizing = true
allowed analyzing t = stops t
allowed normalizing grouping = true
allowed normalizing t = stops t
allowed grouping complete = true
allowed grouping partial = true
allowed grouping failed = true
allowed grouping cancelled = true
allowed grouping _ = false
allowed _ _ = false

abbrev pub timeout_codes : String → Bool
timeout_codes c = c == "TIMEOUT" || c == "CORE_EXECUTION_TIMEOUT" || c == "CORE_STAGE_TIMEOUT"

abbrev pub dump_codes : String → Bool
dump_codes c = c == "UNSUPPORTED_DUMP" || c == "CORRUPT_DUMP"

unfoldable pub failure_state : String → State
failure_state error_code =
    if timeout_codes error_code
    then timeout
    else if error_code == "OOM"
    then oom
    else if dump_codes error_code
    then rejected
    else failed

-- The predicates over a status text: an unknown text is in none of the sets.
unfoldable pub is_terminal : Status → Bool
is_terminal (known s) = terminal s
is_terminal (unknown t) = false

unfoldable pub is_current_eligible : Status → Bool
is_current_eligible (known s) = current_eligible s
is_current_eligible (unknown t) = false

unfoldable pub retry_is_same_run : Status → Bool
retry_is_same_run (known s) = active s
retry_is_same_run (unknown t) = false

unfoldable pub reprocess_requires_new_run : Status → Bool
reprocess_requires_new_run (known s) = terminal s
reprocess_requires_new_run (unknown t) = false

-- The fields of `AnalysisRun` that the lifecycle reads and writes.
pub record Run : Type 0 where
  pub status : Status
  pub started_at : Option ℕ
  pub finished_at : Option ℕ

pub data Error : Type 0 where
  unknown_state : Error  -- ValueError("unknown analysis state")
  conflict : State → State → Error  -- ApiError("CONFLICT", ..., from, to)

abbrev is_analyzing : State → Bool
is_analyzing analyzing = true
is_analyzing _ = false

-- The two timestamps, each written when its state is entered and never again.
abbrev stamp_started : State → ℕ → Option ℕ → Option ℕ
stamp_started t now old = if is_analyzing t && not (is_some old) then some now else old

abbrev stamp_finished : State → ℕ → Option ℕ → Option ℕ
stamp_finished t now old = if terminal t && not (is_some old) then some now else old

enter : State → ℕ → Run → Run
enter t now run = record {
  status = known t;
  started_at = stamp_started t now run.started_at;
  finished_at = stamp_finished t now run.finished_at;
}

transition_from : Status → Status → ℕ → Run → Result Error (Unit {0}) × Run
unfolding allowed enter
transition_from (known s) (known t) now run =
    if allowed s t then (ok tt, enter t now run) else (err (conflict s t), run)
transition_from _ _ now run = (err unknown_state, run)

unfoldable pub transition_analysis : Run → Status → ℕ → Result Error (Unit {0}) × Run
unfolding transition_from
transition_analysis run target now = transition_from run.status target now run

-- Returns the state entered, or `none` for a terminal Run.
abbrev done : State → Result Error (Unit {0}) × Run → Result Error (Option State) × Run
done t (ok u, run) = (ok (some t), run)
done t (err e, run) = (err e, run)

-- The second transition of `fail_analysis` runs only if the first raised nothing.
abbrev then_enter : State → ℕ → Result Error (Unit {0}) × Run → Result Error (Option State) × Run
then_enter t now (ok u, run) = done t (transition_analysis run (known t) now)
then_enter t now (err e, run) = (err e, run)

fail_from : Status → State → ℕ → Run → Result Error (Option State) × Run
unfolding transition_analysis
fail_from (known uploaded) t now run =
    then_enter t now (transition_analysis run (known validating) now)
fail_from (known s) t now run =
    if terminal s then (ok none, run) else done t (transition_analysis run (known t) now)
fail_from (unknown s) t now run = done t (transition_analysis run (known t) now)

unfoldable pub fail_analysis : Run → String → ℕ → Result Error (Option State) × Run
unfolding fail_from failure_state
fail_analysis run error_code now = fail_from run.status (failure_state error_code) now run
