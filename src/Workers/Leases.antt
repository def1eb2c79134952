-- ===== src/Workers/Leases.antt =====
-- platform/worker/crashcap_worker/leases.py: the thread of `renewable_lease`, which renews the lease of
-- a claim while the worker works.
pub mod Kept
use crash_cap.Base.{ℕ, ◌/◌, min, Bool, true, false, List, [], ◌∷◌, if◌then◌else◌, seconds}
use crash_cap.Tasks.Rows.{Db, TaskClaim}
use crash_cap.Tasks.Claims.{claim_is_current, heartbeat_claim}

-- `min(30, task_lease_seconds / 3)`, in microseconds
abbrev pub interval : ℕ → ℕ
interval lease = min (seconds 30) (seconds lease / 3)

-- A round of the loop: what other transactions did since the last one, the instant, and whether its
-- transaction raises.
pub record Round : Type 0 where
  pub before : Db → Db
  pub now : ℕ
  pub fails : Bool

-- `renew`, until it returns or the event is set: whether it would go on, and the tables.
unfoldable pub renew : ℕ → TaskClaim → List Round → Db → Bool × Db
renew lease c [] db = (true, db)
renew lease c (r ∷ rounds) db =
    let found = r.before db in
    let go_on = renew lease c rounds (heartbeat_claim c lease r.now found).1 in
    if r.fails then (false, found) else if claim_is_current found c then go_on else (false, found)
