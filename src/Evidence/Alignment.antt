-- ===== src/Evidence/Alignment.antt =====
-- The alignment of the frames of two analyses: `_align` (evidence_comparison.py).
pub mod Unique
use crash_cap.Base.{
  ℕ, zero, suc, ◌-◌, Bool, true, false, ◌&&◌, Option, none, some, List, [], ◌∷◌, ◌++◌,
  if◌then◌else◌, nat_eq, length,
}
use crash_cap.Evidence.{FrameEvidence}

abbrev pub same_key : FrameEvidence → FrameEvidence → Bool
same_key f g = nat_eq f.module_index g.module_index && nat_eq f.rva g.rva

-- `new[cursor].key == frame.key`, and false where there is no `new[cursor]`
unfoldable pub hits : FrameEvidence → List FrameEvidence → ℕ → Bool
hits f [] cursor = false
hits f (g ∷ gs) zero = same_key g f
hits f (g ∷ gs) (suc cursor) = hits f gs cursor

-- The first inner loop: `left` is `len(new) - cursor`.
unfoldable pub seek_up : List FrameEvidence → FrameEvidence → ℕ → ℕ → Option ℕ
seek_up new f cursor zero = none
seek_up new f cursor (suc left) =
    let rest = seek_up new f (suc cursor) left in if hits f new cursor then some cursor else rest

-- The second inner loop: `above` is `cursor + 1`.
unfoldable pub seek_down : List FrameEvidence → FrameEvidence → ℕ → Option ℕ
seek_down new f zero = none
seek_down new f (suc cursor) =
    let rest = seek_down new f cursor in if hits f new cursor then some cursor else rest

abbrev pub put_first : ℕ → Option (List ℕ) → Option (List ℕ)
put_first i none = none
put_first i (some is) = some (i ∷ is)

-- `earliest`, from the cursor on
unfoldable pub earliest : List FrameEvidence → List FrameEvidence → ℕ → Option (List ℕ)
earliest new [] cursor = some []
earliest new (f ∷ fs) cursor = elim (seek_up new f cursor (length new - cursor)) [
  | none ↦ none
  | some i ↦ put_first i (earliest new fs (suc i))
]

-- `latest`, of frames that are given last first
unfoldable pub latest : List FrameEvidence → List FrameEvidence → ℕ → Option (List ℕ)
latest new [] above = some []
latest new (f ∷ fs) above = elim (seek_down new f above) [
  | none ↦ none
  | some i ↦ put_first i (latest new fs i)
]

-- `list(reversed(xs))`
unfoldable pub backwards {ℓ} : {A : Type ℓ} → List A → List A
backwards [] = []
backwards (x ∷ xs) = backwards xs ++ x ∷ []

unfoldable pub same_indices : List ℕ → List ℕ → Bool
same_indices [] [] = true
same_indices (i ∷ is) (j ∷ js) = nat_eq i j && same_indices is js
same_indices _ _ = false

unfoldable pub agreed : Option (List ℕ) → Option (List ℕ) → Option (List ℕ)
unfolding same_indices backwards
agreed (some up) (some down) = if same_indices up (backwards down) then some up else none
agreed _ _ = none

unfoldable pub align : List FrameEvidence → List FrameEvidence → Option (List ℕ)
unfolding earliest latest agreed
align old new = agreed (earliest new old 0) (latest new (backwards old) (length new))
