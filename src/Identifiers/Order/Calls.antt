-- ===== src/Identifiers/Order/Calls.antt =====
-- Any calls of `new_ulid` in a row.
use mathlib.Core.Path.{subst}
use crash_cap.Base.{
  ℕ, ◌+◌, ◌%◌, ◌^◌, ◌≤◌, ◌<◌, ◌≡◌, refl, sym, String, true, arith, Bool-cases, ltb, nat_eq,
  nat_eq→eq, nat_eq→ne, ltb→lt, inl, inr, Option, none, some, List, [], ◌∷◌, ◌++◌, All, Result, ok,
  err,
}
use crash_cap.Base.Sorting.{str_lt}
use crash_cap.Base.Ascending.{Ascending, Follows, Follows-trans}
use crash_cap.Identifiers.{
  IdError, Generator, millis, fresh, wait_past, issue, issue_waited, new_ulid,
}
use crash_cap.Identifiers.Order.{ulid_of, ulid_of-later, ulid_of-next, issue-ok}

-- What the clock shows from a call on, until the next one, and what the call would draw.
pub record Call : Type 0 where
  pub readings : List ℕ
  pub draw : ℕ

listed : Result IdError String → List String → List String
listed (ok id) ids = id ∷ ids
listed (err e) ids = ids

-- A call that never returns holds the lock.
go_on : Option (Result IdError String × Generator) → (Generator → List String) → List String
go_on none rest = []
go_on (some (r, g)) rest = listed r (rest g)

-- The ids that the calls return, in their order.
unfoldable pub served : Generator → List Call → List String
unfolding go_on listed
served g [] = []
served g (c ∷ cs) = go_on (new_ulid g c.readings c.draw) (λ h. served h cs)

abbrev pub all_readings : List Call → List ℕ
all_readings [] = []
all_readings (c ∷ cs) = c.readings ++ all_readings cs

-- The clock does not go back.
abbrev pub Rising : List ℕ → Type 0
Rising [] = Unit {0}
Rising (r ∷ rs) = All (λ s. r ≤ s) rs × Rising rs

-- `randbits(80)` draws 80 bits, and ten symbols hold the milliseconds until the year 37648.
abbrev pub IsSound : Call → Type 0
IsSound c = (c.draw < 2 ^ 80) × All (λ ns. millis ns < 2 ^ 50) c.readings

-- No reading is before a timestamp.
abbrev From : ℕ → List ℕ → Type 0
From t readings = All (λ ns. t ≤ millis ns) readings

From-append : (t : ℕ) (xs ys : List ℕ) → From t (xs ++ ys) → From t ys
From-append t [] ys h = h
From-append t (x ∷ xs) ys h = From-append t xs ys h.1

From-rising : (r : ℕ) (xs : List ℕ) → All (λ s. r ≤ s) xs → From (millis r) xs
From-rising r [] h = tt
From-rising r (x ∷ xs) h = (omega (arith, h.0), From-rising r xs h.1)

Rising-append : (xs ys : List ℕ) → Rising (xs ++ ys) → Rising ys
Rising-append [] ys h = h
Rising-append (x ∷ xs) ys h = Rising-append xs ys h.1

-- What a call leads to, when the last id was of timestamp `t` and random number `r`.
data Moved (t r : ℕ) (more : List ℕ) : Option (Result IdError String × Generator) → Type 0 where
  waits : Moved t r more none
  moves :
      (u q : ℕ)
      → str_lt (ulid_of t r) (ulid_of u q) ≡ true
      → u < 2 ^ 50
      → q < 2 ^ 80
      → From u more
      → Moved t r more
          (some (ok (ulid_of u q), record { last_timestamp = some u; last_random = q }))

Moved-issue :
    (t r : ℕ) (more : List ℕ) (u q : ℕ)
    → str_lt (ulid_of t r) (ulid_of u q) ≡ true
    → u < 2 ^ 50
    → q < 2 ^ 80
    → From u more
    → Moved t r more (some (issue u q))
Moved-issue t r more u q lt hu hq later = rw (issue-ok u q hu hq) (moves u q lt hu hq later)

abbrev pub issued_at : ℕ → ℕ → Generator
issued_at t r = record { last_timestamp = some t; last_random = r }

wait_past-Moved :
    (t r : ℕ) (rs more : List ℕ) (draw : ℕ)
    → draw < 2 ^ 80
    → All (λ ns. millis ns < 2 ^ 50) rs
    → Rising (rs ++ more)
    → Moved t r more (issue_waited (wait_past t rs) draw)
unfolding wait_past
wait_past-Moved t r [] more draw hd hs rise = waits
wait_past-Moved t r (x ∷ xs) more draw hd hs rise = elim (Bool-cases (ltb t (millis x))) [
  | inl e ↦ rw e (
      Moved-issue t r more (millis x) draw (ulid_of-later t (millis x) r draw (ltb→lt _ _ e) hs.0)
        hs.0 hd (From-append (millis x) xs more (From-rising x (xs ++ more) rise.0)))
  | inr e ↦ rw e (wait_past-Moved t r xs more draw hd hs.1 rise.1)
]

-- A call either waits, or moves on to a greater id.
new_ulid-Moved :
    (t r : ℕ) (readings more : List ℕ) (draw : ℕ)
    → r < 2 ^ 80
    → draw < 2 ^ 80
    → All (λ ns. millis ns < 2 ^ 50) readings
    → From t (readings ++ more)
    → Rising (readings ++ more)
    → Moved t r more (new_ulid (issued_at t r) readings draw)
unfolding new_ulid
new_ulid-Moved t r [] more draw hr hd hs from rise = waits
new_ulid-Moved t r (ns ∷ rs) more draw hr hd hs from rise =
    let later : From (millis ns) more =
      From-append (millis ns) rs more (From-rising ns (rs ++ more) rise.0) in
    elim (Bool-cases (nat_eq (millis ns) t)) [
      | inl e ↦ elim (Bool-cases (nat_eq ((r + 1) % 2 ^ 80) 0)) [
        | inl f ↦
            rw (e, f)
              (subst (λ m. Moved t r more (issue_waited (wait_past m rs) draw))
                (sym (nat_eq→eq _ _ e)) (wait_past-Moved t r rs more draw hd hs.1 rise.1))
        | inr f ↦
            rw (e, f)
              (Moved-issue t r more (millis ns) ((r + 1) % 2 ^ 80)
                (subst (λ m. str_lt (ulid_of t r) (ulid_of m ((r + 1) % 2 ^ 80)) ≡ true)
                  (sym (nat_eq→eq _ _ e))
                  (ulid_of-next t r ((r + 1) % 2 ^ 80) (omega (arith, nat_eq→ne _ _ f))
                    (omega arith)))
                hs.0 (omega arith) later)
      ]
      | inr e ↦ rw e (
          Moved-issue t r more (millis ns) draw
            (ulid_of-later t (millis ns) r draw (omega (arith, nat_eq→ne _ _ e, from.0)) hs.0) hs.0
            hd later)
    ]

go_on-Ascending :
    (t r : ℕ) (cs : List Call) {o : Option (Result IdError String × Generator)}
    → Moved t r (all_readings cs) o
    → ((u q : ℕ)
        → u < 2 ^ 50
        → q < 2 ^ 80
        → From u (all_readings cs)
        → Follows (ulid_of u q) (served (issued_at u q) cs) × Ascending (served (issued_at u q) cs))
    → Follows (ulid_of t r) (go_on o (λ h. served h cs)) × Ascending (go_on o (λ h. served h cs))
unfolding served
go_on-Ascending t r cs waits ih = (tt, tt)
go_on-Ascending t r cs (moves u q lt hu hq from) ih =
    let (after, rest) = ih u q hu hq from in
    ((lt, Follows-trans (ulid_of t r) (ulid_of u q) _ lt after), (after, rest))

served-Follows :
    (cs : List Call) (t r : ℕ)
    → r < 2 ^ 80
    → All IsSound cs
    → From t (all_readings cs)
    → Rising (all_readings cs)
    → Follows (ulid_of t r) (served (issued_at t r) cs) × Ascending (served (issued_at t r) cs)
unfolding served
served-Follows [] t r hr sound from rise = (tt, tt)
served-Follows (c ∷ cs) t r hr sound from rise =
    go_on-Ascending t r cs
      (new_ulid-Moved t r c.readings (all_readings cs) c.draw hr sound.0.0 sound.0.1 from rise)
      (λ u q hu hq from.
        served-Follows cs u q hq sound.1 from (Rising-append c.readings (all_readings cs) rise))

first-Ascending :
    (readings : List ℕ) (draw : ℕ) (cs : List Call)
    → draw < 2 ^ 80
    → All (λ ns. millis ns < 2 ^ 50) readings
    → All IsSound cs
    → Rising (readings ++ all_readings cs)
    → Ascending (go_on (new_ulid fresh readings draw) (λ h. served h cs))
unfolding served new_ulid
first-Ascending [] draw cs hd hs sound rise = tt
first-Ascending (ns ∷ rs) draw cs hd hs sound rise = rw (issue-ok (millis ns) draw hs.0 hd) (
    served-Follows cs (millis ns) draw hd sound
      (From-append (millis ns) rs (all_readings cs) (From-rising ns (rs ++ all_readings cs) rise.0))
      (Rising-append rs (all_readings cs) rise.1))

-- While the clock does not go back, the ids that a process draws grow from one to the next, as texts.
pub served-Ascending :
    (cs : List Call) → All IsSound cs → Rising (all_readings cs) → Ascending (served fresh cs)
unfolding served
served-Ascending [] sound rise = tt
served-Ascending (c ∷ cs) sound rise =
    first-Ascending c.readings c.draw cs sound.0.0 sound.0.1 sound.1 rise

-- While the clock is behind the last timestamp, a call returns an id at once, and it is smaller as a
-- text than the id that was drawn before it.
pub new_ulid-back :
    (t r ns : ℕ) (rs : List ℕ) (draw : ℕ)
    → draw < 2 ^ 80
    → t < 2 ^ 50
    → millis ns < t
    → (new_ulid (issued_at t r) (ns ∷ rs) draw
        ≡ some (ok (ulid_of (millis ns) draw), issued_at (millis ns) draw))
      × (str_lt (ulid_of (millis ns) draw) (ulid_of t r) ≡ true)
unfolding new_ulid
new_ulid-back t r ns rs draw hd ht lt = elim (Bool-cases (nat_eq (millis ns) t)) [
  | inl e ↦ absurd (omega (arith, nat_eq→eq _ _ e, lt))
  | inr e ↦ (
    rw (e, issue-ok (millis ns) draw (omega (arith, lt, ht)) hd) refl,
    ulid_of-later (millis ns) t draw r lt ht,
  )
]
