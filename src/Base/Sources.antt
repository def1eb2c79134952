-- ===== src/Base/Sources.antt =====
-- What holds of the start of a list, of what is kept of it or of its images, told of the list itself.
use Prim.Native.Nat.{ℕ, zero, suc, ◌≤◌}
use mathlib.Core.Path.{◌≡◌, subst}
use mathlib.Core.Bool.{Bool, true, false}
use mathlib.Core.List.{List, [], ◌∷◌, map}
use mathlib.Core.Logic.{inl, inr}
use native.Mathlib.Omega.{arith}
use crash_cap.Base.Tests.{Bool-cases}
use crash_cap.Base.Lists.{All, take, keep_if, length}

module _ {ℓ κ} {A : Type ℓ} (P : A → Type κ) where
  pub take-All_of : (n : ℕ) (xs : List A) → length xs ≤ n → All P (take n xs) → All P xs
  take-All_of zero [] le h = tt
  take-All_of zero (x ∷ xs) le h = absurd (omega (arith, le))
  take-All_of (suc n) [] le h = tt
  take-All_of (suc n) (x ∷ xs) le h = (h.0, take-All_of n xs (omega (arith, le)) h.1)

  keep_if-yes :
      (p : A → Bool) (x : A) (xs : List A) → p x ≡ true → keep_if p (x ∷ xs) ≡ x ∷ keep_if p xs
  keep_if-yes p x xs e = ground (arith, e)

  keep_if-no :
      (p : A → Bool) (x : A) (xs : List A) → p x ≡ false → keep_if p (x ∷ xs) ≡ keep_if p xs
  keep_if-no p x xs e = ground (arith, e)

  pub keep_if-All_of :
      (p : A → Bool) (xs : List A) → All P (keep_if p xs) → All (λ x. p x ≡ true → P x) xs
  keep_if-All_of p [] h = tt
  keep_if-All_of p (x ∷ xs) h = elim (Bool-cases (p x)) [
    | inl e ↦ let k = subst (All P) (keep_if-yes p x xs e) h in (λ _. k.0, keep_if-All_of p xs k.1)
    | inr e ↦
        let k = subst (All P) (keep_if-no p x xs e) h in
        (λ t. absurd (ground (arith, e, t)), keep_if-All_of p xs k)
  ]

pub map-All_of {ℓ κ ι} :
    {A : Type ℓ} {B : Type κ} (P : B → Type ι) (f : A → B) (xs : List A)
    → All P (map f xs)
    → All (λ x. P (f x)) xs
map-All_of P f [] h = tt
map-All_of P f (x ∷ xs) h = (h.0, map-All_of P f xs h.1)
