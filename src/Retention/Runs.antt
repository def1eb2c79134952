-- ===== src/Retention/Runs.antt =====
-- A run of expire_dump_blobs of retention.py, with what others do between its transactions, is a sequence
-- of the steps that keep the bytes.
use crash_cap.Base.{ℕ, String, ◌≡◌, refl, sym, ◌∙◌, List, [], ◌∷◌, ◌++◌}
use crash_cap.Retention.{Stores, Deletion, expire_each, expire_dump_blobs, expiry_candidates}
use crash_cap.Retention.Kept.{Step, expire, step, steps}

steps-append : (xs ys : List Step) (s : Stores) → steps (xs ++ ys) s ≡ steps ys (steps xs s)
unfolding steps
steps-append [] ys s = refl
steps-append (x ∷ xs) ys s = steps-append xs ys (step x s)

-- The steps of a run, those of others before each candidate included.
pub run_of : (String → List Step) → (String → Deletion) → ℕ → List String → List Step
run_of others deletion cutoff [] = []
run_of others deletion cutoff (id ∷ ids) =
    others id ++ (expire (deletion id) cutoff id ∷ run_of others deletion cutoff ids)

expire_each-steps :
    (others : String → List Step) (deletion : String → Deletion) (cutoff : ℕ) (ids : List String)
    (s : Stores)
    → (expire_each (λ id. steps (others id)) deletion cutoff ids s).1
      ≡ steps (run_of others deletion cutoff ids) s
unfolding expire_each run_of steps step
expire_each-steps others deletion cutoff [] s = refl
expire_each-steps others deletion cutoff (id ∷ ids) s =
    expire_each-steps others deletion cutoff ids _ ∙ sym (steps-append (others id) _ s)

pub expire_dump_blobs-steps :
    (others : String → List Step) (deletion : String → Deletion) (cutoff limit : ℕ) (s : Stores)
    → (expire_dump_blobs (λ id. steps (others id)) deletion cutoff limit s).1
      ≡ steps (run_of others deletion cutoff (expiry_candidates cutoff limit s)) s
unfolding expire_dump_blobs
expire_dump_blobs-steps others deletion cutoff limit s =
    expire_each-steps others deletion cutoff (expiry_candidates cutoff limit s) s
