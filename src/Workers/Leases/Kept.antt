-- ===== src/Workers/Leases/Kept.antt =====
-- The thread of leases.py keeps the claim, whatever claims others attempt.
use crash_cap.Base.{
  ℕ, ◌+◌, ◌*◌, ◌≤◌, ◌<◌, String, ◌≡◌, refl, true, false, arith, List, [], ◌∷◌, map, All, seconds,
}
use crash_cap.Tasks.Message.{Message}
use crash_cap.Tasks.Rows.{Db, TaskClaim}
use crash_cap.Tasks.Claims.{HeldWrite, claim_task}
use crash_cap.Tasks.Claims.Leased.{Leased, Leased-current, heartbeat_claim-Leased}
use crash_cap.Tasks.Claims.Leased.Others.{Foreign, claim_task-Leased}
use crash_cap.Workers.Leases.{interval, Round, renew}

-- A call of `claim_task` by somebody.
pub record Attempt : Type 0 where
  pub message : Message
  pub owner : String
  pub lease : ℕ
  pub now : ℕ
  pub race : List HeldWrite  -- what commits between its read of the execution and its write

abbrev pub attempted : List Attempt → Db → Db
attempted [] db = db
attempted (a ∷ rest) db = attempted rest (claim_task a.message a.owner a.lease a.now a.race db).1

-- A round before which others attempt claims.
pub record Contested : Type 0 where
  pub attempts : List Attempt
  pub now : ℕ

abbrev pub round_of : Contested → Round
round_of r = record { before = attempted r.attempts; now = r.now; fails = false }

-- A call of `claim_task` is no later than the round, and nothing that commits within it is the holder's.
abbrev pub Fits : TaskClaim → ℕ → Attempt → Type 0
Fits c now a = (a.now ≤ now) × Foreign c a.race

-- Each round comes at most one more interval late, after the attempts before it.
abbrev pub Paced : TaskClaim → ℕ → ℕ → List Contested → Type 0
Paced c lease last [] = Unit {0}
Paced c lease last (r ∷ rounds) =
    (r.now ≤ last + 2 * interval lease) × All (Fits c r.now) r.attempts × Paced c lease r.now rounds

abbrev pub last_round : ℕ → List Contested → ℕ
last_round last [] = last
last_round last (r ∷ rounds) = last_round r.now rounds

attempted-Leased :
    (c : TaskClaim) (until now : ℕ) (attempts : List Attempt) (db : Db)
    → now < until
    → All (Fits c now) attempts
    → Leased c until db
    → Leased c until (attempted attempts db)
attempted-Leased c until now [] db lt early l = l
attempted-Leased c until now (a ∷ rest) db lt early l =
    attempted-Leased c until now rest _ lt early.1 (
      claim_task-Leased c until db l a.message a.owner a.lease a.now a.race early.0.1
        (omega (arith, early.0.0, lt)))

-- If no transaction of the thread fails and no round is more than one interval late, then the thread
-- keeps going and the claim holds the execution until a lease after the last round, whatever calls of
-- claim_task others make in between, and whatever heartbeats and ends under other claims commit within them.
pub renew-Leased :
    (c : TaskClaim) (lease last : ℕ) (rounds : List Contested) (db : Db)
    → 0 < lease
    → Leased c (last + seconds lease) db
    → Paced c lease last rounds
    → ((renew lease c (map round_of rounds) db).0 ≡ true)
      × Leased c (last_round last rounds + seconds lease) (renew lease c (map round_of rounds) db).1
unfolding renew
renew-Leased c lease last [] db pos l paced = (refl, l)
renew-Leased c lease last (r ∷ rounds) db pos l paced =
    let held =
      attempted-Leased c (last + seconds lease) r.now r.attempts db (omega (arith, pos, paced.0))
        paced.1 l in
    rw (Leased-current c _ (attempted r.attempts db) held) (
      renew-Leased c lease r.now rounds _ pos
        (heartbeat_claim-Leased c (last + seconds lease) (attempted r.attempts db) held lease r.now)
        paced.2)
