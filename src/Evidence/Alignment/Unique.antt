-- ===== src/Evidence/Alignment/Unique.antt =====
-- That `_align` (evidence_comparison.py) finds the one embedding.
use mathlib.Core.Path.{subst, ap₂}
use crash_cap.Base.{
  ℕ, zero, suc, ◌+◌, ◌-◌, ◌≤◌, ◌<◌, ◌≡◌, refl, sym, ap, ◌∙◌, true, false, Option, none, some, List,
  [], ◌∷◌, ◌++◌, length, inl, inr, Bool-cases, Option-cases, arith,
}
use crash_cap.Evidence.{FrameEvidence}
use crash_cap.Evidence.Alignment.{
  hits, seek_up, seek_down, put_first, earliest, latest, backwards, same_indices, agreed, align,
}

-- The frames are found at growing indices from `low` on, below `high`.
abbrev pub Embeds : List FrameEvidence → ℕ → ℕ → List FrameEvidence → List ℕ → Type 0
Embeds new low high [] [] = low ≤ high
Embeds new low high (f ∷ fs) (j ∷ js) =
    (low ≤ j) × (j < high) × (hits f new j ≡ true) × Embeds new (suc j) high fs js
Embeds new low high _ _ = ⊥

-- The same for frames that are given last first: the indices fall from below `high` down to `low`.
abbrev Falls : List FrameEvidence → ℕ → ℕ → List FrameEvidence → List ℕ → Type 0
Falls new high low [] [] = low ≤ high
Falls new high low (f ∷ fs) (j ∷ js) = (j < high) × (hits f new j ≡ true) × Falls new j low fs js
Falls new high low _ _ = ⊥

-- No index of the first list is greater than its partner.
abbrev Below : List ℕ → List ℕ → Type 0
Below [] [] = Unit
Below (i ∷ is) (j ∷ js) = (i ≤ j) × Below is js
Below _ _ = ⊥

abbrev Sought : List FrameEvidence → FrameEvidence → ℕ → ℕ → Option ℕ → Type 0
Sought new f cursor left none = Unit
Sought new f cursor left (some i) = (hits f new i ≡ true) × (cursor ≤ i) × (i < cursor + left)

Sought-later :
    (new : List FrameEvidence) (f : FrameEvidence) (cursor left : ℕ) (o : Option ℕ)
    → Sought new f (suc cursor) left o
    → Sought new f cursor (suc left) o
Sought-later new f cursor left none h = tt
Sought-later new f cursor left (some i) h = (h.0, omega (arith, h.1), omega (arith, h.2))

abbrev Embedded : List FrameEvidence → ℕ → List FrameEvidence → Option (List ℕ) → Type 0
Embedded new cursor fs none = Unit
Embedded new cursor fs (some is) = Embeds new cursor (length new) fs is

abbrev total : List ℕ → ℕ
total [] = 0
total (i ∷ is) = i + total is

module _ (new : List FrameEvidence) where
  Falls-snoc :
      (high low j : ℕ) (f : FrameEvidence) (fs : List FrameEvidence) (js : List ℕ)
      → Falls new high (suc j) fs js
      → hits f new j ≡ true
      → low ≤ j
      → Falls new high low (fs ++ f ∷ []) (js ++ j ∷ [])
  Falls-snoc high low j f [] [] h t l = (omega (arith, h), t, l)
  Falls-snoc high low j f [] (i ∷ is) h t l = elim h [ ]
  Falls-snoc high low j f (g ∷ gs) [] h t l = elim h [ ]
  Falls-snoc high low j f (g ∷ gs) (i ∷ is) h t l = (h.0, h.1, Falls-snoc i low j f gs is h.2 t l)

  Embeds-backwards :
      (low high : ℕ) (fs : List FrameEvidence) (js : List ℕ)
      → Embeds new low high fs js
      → Falls new high low (backwards fs) (backwards js)
  unfolding backwards
  Embeds-backwards low high [] [] h = h
  Embeds-backwards low high [] (j ∷ js) h = elim h [ ]
  Embeds-backwards low high (f ∷ fs) [] h = elim h [ ]
  Embeds-backwards low high (f ∷ fs) (j ∷ js) h =
      Falls-snoc high low j f (backwards fs) (backwards js)
        (Embeds-backwards (suc j) high fs js h.3) h.2 h.0

  hits_apart :
      (f : FrameEvidence) (i j : ℕ) → hits f new i ≡ false → hits f new j ≡ true → i ≤ j → i < j
  hits_apart f i j e t l = grind arith

  hits_below :
      (f : FrameEvidence) (i j : ℕ) → hits f new i ≡ false → hits f new j ≡ true → j ≤ i → j < i
  hits_below f i j e t l = grind arith

  -- The loops find the first and the last hit.
  seek_up-least :
      (f : FrameEvidence) (cursor left j : ℕ)
      → hits f new j ≡ true
      → cursor ≤ j
      → j < cursor + left
      → (i : ℕ) × (seek_up new f cursor left ≡ some i) × (i ≤ j)
  unfolding seek_up
  seek_up-least f cursor zero j t l u = ground (arith, l, u)
  seek_up-least f cursor (suc left) j t l u = elim (Bool-cases (hits f new cursor)) [
    | inl e ↦ rw e (cursor, refl, l)
    | inr e ↦
        rw e
          (seek_up-least f (suc cursor) left j t (hits_apart f cursor j e t l) (omega (arith, u)))
  ]

  seek_down-most :
      (f : FrameEvidence) (above j : ℕ)
      → hits f new j ≡ true
      → j < above
      → (i : ℕ) × (seek_down new f above ≡ some i) × (j ≤ i)
  unfolding seek_down
  seek_down-most f zero j t u = ground (arith, u)
  seek_down-most f (suc above) j t u = elim (Bool-cases (hits f new above)) [
    | inl e ↦ rw e (above, refl, omega (arith, u))
    | inr e ↦ rw e (seek_down-most f above j t (hits_below f above j e t (omega (arith, u))))
  ]

  earliest-least :
      (cursor low : ℕ) (fs : List FrameEvidence) (js : List ℕ)
      → cursor ≤ low
      → Embeds new low (length new) fs js
      → (is : List ℕ) × (earliest new fs cursor ≡ some is) × Below is js
  unfolding earliest
  earliest-least cursor low [] [] l h = ([], refl, tt)
  earliest-least cursor low [] (j ∷ js) l h = elim h [ ]
  earliest-least cursor low (f ∷ fs) [] l h = elim h [ ]
  earliest-least cursor low (f ∷ fs) (j ∷ js) l h =
      let (i, e, b) =
        seek_up-least f cursor (length new - cursor) j h.2 (omega (arith, l, h.0))
          (omega (arith, l, h.0, h.1)) in
      let (is, r, c) = earliest-least (suc i) (suc j) fs js (omega (arith, b)) h.3 in
      rw (e, earliest, r) (i ∷ is, refl, (b, c))

  -- What the first loop finds is a hit in its range.
  seek_up-Sought :
      (f : FrameEvidence) (cursor left : ℕ) → Sought new f cursor left (seek_up new f cursor left)
  unfolding seek_up
  seek_up-Sought f cursor zero = tt
  seek_up-Sought f cursor (suc left) = elim (Bool-cases (hits f new cursor)) [
    | inl t ↦ rw (t, Sought) (t, omega arith, omega arith)
    | inr t ↦ rw t (
        Sought-later new f cursor left (seek_up new f (suc cursor) left)
          (seek_up-Sought f (suc cursor) left))
  ]

  put_first-Embedded :
      (cursor i : ℕ) (f : FrameEvidence) (fs : List FrameEvidence) (o : Option (List ℕ))
      → cursor ≤ i
      → i < length new
      → hits f new i ≡ true
      → Embedded new (suc i) fs o
      → Embedded new cursor (f ∷ fs) (put_first i o)
  put_first-Embedded cursor i f fs none l u t h = tt
  put_first-Embedded cursor i f fs (some is) l u t h = (l, u, t, h)

  earliest-Embedded :
      (cursor : ℕ) (fs : List FrameEvidence)
      → cursor ≤ length new
      → Embedded new cursor fs (earliest new fs cursor)
  unfolding earliest
  earliest-Embedded cursor [] l = l
  earliest-Embedded cursor (f ∷ fs) l =
      elim (Option-cases (seek_up new f cursor (length new - cursor))) [
        | inl e ↦ rw (e, earliest) tt
        | inr (i, e) ↦
            let s =
              subst (Sought new f cursor (length new - cursor)) e
                (seek_up-Sought f cursor (length new - cursor)) in
            rw (e, earliest)
              (put_first-Embedded cursor i f fs (earliest new fs (suc i)) s.1
                (omega (arith, s.2, l)) s.0 (earliest-Embedded (suc i) fs (omega (arith, s.2, l))))
      ]

  latest-most :
      (above high low : ℕ) (fs : List FrameEvidence) (js : List ℕ)
      → high ≤ above
      → Falls new high low fs js
      → (is : List ℕ) × (latest new fs above ≡ some is) × Below js is
  unfolding latest
  latest-most above high low [] [] l h = ([], refl, tt)
  latest-most above high low [] (j ∷ js) l h = elim h [ ]
  latest-most above high low (f ∷ fs) [] l h = elim h [ ]
  latest-most above high low (f ∷ fs) (j ∷ js) l h =
      let (i, e, b) = seek_down-most f above j h.1 (omega (arith, l, h.0)) in
      let (is, r, c) = latest-most i j low fs js b h.2 in rw (e, latest, r) (i ∷ is, refl, (b, c))

Below-total : (is js : List ℕ) → Below is js → total is ≤ total js
Below-total [] [] b = omega arith
Below-total [] (j ∷ js) b = elim b [ ]
Below-total (i ∷ is) [] b = elim b [ ]
Below-total (i ∷ is) (j ∷ js) b = omega (arith, b.0, Below-total is js b.1)

-- Lists that lie below one another with equal totals are equal.
Below-equal : (is js : List ℕ) → Below is js → total js ≤ total is → is ≡ js
Below-equal [] [] b l = refl
Below-equal [] (j ∷ js) b l = elim b [ ]
Below-equal (i ∷ is) [] b l = elim b [ ]
Below-equal (i ∷ is) (j ∷ js) b l =
    ap₂ (λ x xs. x ∷ xs) (omega (arith, b.0, l, Below-total is js b.1))
      (Below-equal is js b.1 (omega (arith, b.0, l)))

total-snoc : (is : List ℕ) (j : ℕ) → total (is ++ j ∷ []) ≡ total is + j
total-snoc [] j = omega arith
total-snoc (i ∷ is) j = omega (arith, total-snoc is j)

total-backwards : (is : List ℕ) → total (backwards is) ≡ total is
unfolding backwards
total-backwards [] = refl
total-backwards (i ∷ is) = omega (arith, total-snoc (backwards is) i, total-backwards is)

same_indices_equal : (is js : List ℕ) → same_indices is js ≡ true → is ≡ js
unfolding same_indices
same_indices_equal [] [] e = refl
same_indices_equal [] (j ∷ js) e = ground arith
same_indices_equal (i ∷ is) [] e = ground arith
same_indices_equal (i ∷ is) (j ∷ js) e =
    ap₂ (λ x xs. x ∷ xs) (ground (arith, e)) (same_indices_equal is js (ground (arith, e)))

-- An agreement of the two lists: both are there, and they are the same.
agreed_same :
    (up down m : List ℕ) → agreed (some up) (some down) ≡ some m → (m ≡ up) × (up ≡ backwards down)
unfolding agreed
agreed_same up down m e =
    (ground (arith, e), same_indices_equal up (backwards down) (ground (arith, e)))

-- What is returned is the first list.
agreed_first : (up down : Option (List ℕ)) (m : List ℕ) → agreed up down ≡ some m → up ≡ some m
unfolding agreed
agreed_first none down m e = ground arith
agreed_first (some up) none m e = ground arith
agreed_first (some up) (some down) m e = ground (arith, e)

-- The indices that `_align` returns embed the frames of the old analysis in those of the new one.
pub align-Embeds :
    (old new : List FrameEvidence) (m : List ℕ)
    → align old new ≡ some m
    → Embeds new 0 (length new) old m
unfolding align
align-Embeds old new m e =
    let found = agreed_first (earliest new old 0) (latest new (backwards old) (length new)) m e in
    subst (Embedded new 0 old) found (earliest-Embedded new 0 old (omega arith))

-- If `_align` returns indices, every embedding of the frames of the old analysis in those of the new
-- one has these indices.
pub align_unique :
    (old new : List FrameEvidence) (m other : List ℕ)
    → align old new ≡ some m
    → Embeds new 0 (length new) old other
    → m ≡ other
unfolding align
align_unique old new m other e h =
    let (up, p, b) = earliest-least new 0 0 old other (omega arith) h in
    let (down, q, c) =
      latest-most new (length new) (length new) 0 (backwards old) (backwards other) (omega arith)
        (Embeds-backwards new 0 (length new) old other h) in
    let (first, same) = agreed_same up down m (sym (ap₂ agreed p q) ∙ e) in
    first
    ∙ Below-equal up other b (
        omega (
          arith,
          Below-total (backwards other) down c,
          total-backwards other,
          total-backwards down,
          ap total same,
        ))
