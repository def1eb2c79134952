-- ===== src/Demands/Settlement/Budget.antt =====
-- The retries of a demand end (analysis_demands.py).
use crash_cap.Base.{
  ℕ, suc, ◌+◌, ◌≤◌, ◌<◌, String, Bool, true, false, Option, none, some, List, [], ◌∷◌,
  if◌then◌else◌, inl, inr, Bool-cases, arith,
}
use crash_cap.Demand.{AnalysisDemand, DemandState, retry_wait}
use crash_cap.Evidence.Decision.{ComparisonDecision}
use crash_cap.Demands.Rows.{DumpBlob, live}
use crash_cap.Demands.Settlement.{
  RetrySettings, Pending, retried, settle_runtime_failure, pending_change, restore_pending_change,
  planning_failed, settle_demand_after_execution_failure, compared, settle_demand_after_comparison,
}

-- A settlement with what it is called with, and its instant.
pub data Settled : Type 0 where
  planning : Option DumpBlob → String → String → ℕ → Settled
  execution : DumpBlob → String → String → Bool → ℕ → Settled
  comparison : DumpBlob → ComparisonDecision → Bool → ℕ → Settled

unfoldable pub settle : RetrySettings → Settled → AnalysisDemand → AnalysisDemand
settle s (planning blob cause code now) d = planning_failed blob cause code s now d
settle s (execution blob cause code retryable now) d =
    settle_demand_after_execution_failure blob cause code retryable s now d
settle s (comparison blob v promoted now) d = settle_demand_after_comparison blob v promoted s now d

abbrev pub is_retry_wait : DemandState → Bool
is_retry_wait retry_wait = true
is_retry_wait _ = false

-- How many of the settlements leave the demand waiting for a retry.
unfoldable pub waits : RetrySettings → List Settled → AnalysisDemand → ℕ
waits s [] d = 0
waits s (e ∷ es) d =
    let d' = settle s e d in
    let rest = waits s es d' in if is_retry_wait d'.state then suc rest else rest

abbrev cost : AnalysisDemand → ℕ
cost d = if is_retry_wait d.state then 1 else 0

-- Waiting for a retry uses up an attempt, and attempts never pass the budget.
abbrev Spends : RetrySettings → AnalysisDemand → AnalysisDemand → Type 0
Spends s d d' = (d.retry_attempt + cost d' ≤ d'.retry_attempt) × (d'.retry_attempt < s.max_attempts)

module _ (s : RetrySettings) (d : AnalysisDemand) (left : d.retry_attempt < s.max_attempts) where
  retried-Spends : (again spent : String) (now : ℕ) → Spends s d (retried again spent s now d)
  unfolding retried
  retried-Spends again spent now = ground (arith, left)

  settle_runtime_failure-Spends :
      (blob : DumpBlob) (cause code phase : String) (retryable : Bool) (now : ℕ)
      → Spends s d (settle_runtime_failure blob cause code phase retryable s now d)
  unfolding settle_runtime_failure
  settle_runtime_failure-Spends blob cause code phase retryable now =
      elim (Bool-cases (live blob now)) [
        | inl l ↦ elim (Bool-cases retryable) [
          | inl r ↦ rw (l, r) (retried-Spends _ _ now)
          | inr r ↦ rw (l, r) (omega (arith, left), left)
        ]
        | inr l ↦ rw l (omega (arith, left), left)
      ]

  compared-Spends :
      (blob : DumpBlob) (v : ComparisonDecision) (promoted : Bool) (now : ℕ)
      → Spends s d (compared blob v promoted s now d)
  unfolding compared
  compared-Spends blob v promoted now = elim (Bool-cases v.retry) [
    | inl r ↦ elim (Bool-cases (live blob now)) [
      | inl l ↦ rw (r, l) (retried-Spends _ _ now)
      | inr l ↦ rw (r, l) (omega (arith, left), left)
    ]
    | inr r ↦ rw r (ground (arith, left))
  ]

  restore_pending_change-Spends :
      (blob : DumpBlob) (p : Pending) (now : ℕ) (d' : AnalysisDemand)
      → Spends s d d'
      → Spends s d (restore_pending_change blob p now d')
  unfolding restore_pending_change
  restore_pending_change-Spends blob none now d' h = h
  restore_pending_change-Spends blob (some (reason, at)) now d' h = ground (arith, h)

  settle-Spends : (e : Settled) → Spends s d (settle s e d)
  unfolding settle planning_failed settle_demand_after_execution_failure
      settle_demand_after_comparison
  settle-Spends (planning none cause code now) = (omega (arith, left), left)
  settle-Spends (planning (some blob) cause code now) =
      settle_runtime_failure-Spends blob cause code "planning" true now
  settle-Spends (execution blob cause code retryable now) =
      restore_pending_change-Spends blob (pending_change d) now _
        (settle_runtime_failure-Spends blob cause code "execution" retryable now)
  settle-Spends (comparison blob v promoted now) =
      restore_pending_change-Spends blob (pending_change d) now _
        (compared-Spends blob v promoted now)

-- Whatever settles a demand, in whatever order: it waits for a retry fewer times than there are
-- attempts left.
pub waits-lt :
    (s : RetrySettings) (es : List Settled) (d : AnalysisDemand)
    → d.retry_attempt < s.max_attempts
    → waits s es d + d.retry_attempt < s.max_attempts
unfolding waits
waits-lt s [] d h = omega (arith, h)
waits-lt s (e ∷ es) d h =
    let p = settle-Spends s d h e in ground (arith, p, waits-lt s es (settle s e d) p.1)
