-- ===== src/Evidence/Modules/Agreeing.antt =====
-- The modules that the first loop of compare_evidence lets through (evidence_comparison.py).
use text.Mathlib.TextEquality.{eq_iff}
use crash_cap.Base.{
  String, ◌≡◌, refl, ap, Bool, true, false, ◌&&◌, ◌||◌, ◌++◌, Option, none, some, List, [], ◌∷◌, ok,
  err, ◌>>=◌, All, inl, inr, Bool-cases, arith,
}
use crash_cap.Base.Keys.{◌==◌, text_keys}
use crash_cap.Evidence.{ModuleEvidence}
use crash_cap.Evidence.Decision.{Findings, Course, moves, classification_delta, same_text}
use crash_cap.Evidence.Modules.{same_identity, same_class, refined, counterpart, classify}

same_text-eq : (a b : Option String) → same_text a b ≡ true → a ≡ b
same_text-eq none none h = refl
same_text-eq none (some b) h = absurd (ground arith)
same_text-eq (some a) none h = absurd (ground arith)
same_text-eq (some a) (some b) h = ap (λ x. some x) ((eq_iff a b).0 h)

same_identity-eq : (m n : ModuleEvidence) → same_identity m n ≡ true → m.identity ≡ n.identity
same_identity-eq m n h = by_parts m.identity n.identity h
  where
    by_parts :
        (x y : Option String × Option String × String)
        → (same_text x.0 y.0 && same_text x.1 y.1 && x.2 == y.2) ≡ true
        → x ≡ y
    by_parts (a, b, c) (a', b', c') e =
        let p = same_text-eq a a' (ground (arith, e)) in
        let q = same_text-eq b b' (ground (arith, e)) in
        let r : c ≡ c' = (eq_iff c c').0 (ground (arith, e)) in cc

-- A module has the identity of its counterpart, and its classification or a less telling one.
abbrev pub Agrees : Bool → List ModuleEvidence → ModuleEvidence → Type 0
Agrees same_context ns m =
    (m.identity ≡ (counterpart ns m).identity)
    × ((same_class m (counterpart ns m) || refined same_context m (counterpart ns m)) ≡ true)

-- The first loop goes on only if all modules agree, and otherwise returns a verdict that moves nothing.
abbrev pub Outcome : Type 0 → {A : Type 0} → Course A → Type 0
Outcome P (ok x) = P
Outcome P (err v) = moves v.decision ≡ false

bind-Outcome :
    {A B : Type 0} (P Q : Type 0) (m : Course A) (f : A → B)
    → (P → Q)
    → Outcome P m
    → Outcome Q (m >>= λ x. ok (f x))
bind-Outcome P Q (ok x) f g h = g h
bind-Outcome P Q (err v) f g h = h

pub classify-Agrees :
    (same_context : Bool) (ns ms : List ModuleEvidence) (s : Findings)
    → Outcome (All (Agrees same_context ns) ms) (classify same_context ns ms s)
unfolding classify
classify-Agrees same_context ns [] s = tt
classify-Agrees same_context ns (m ∷ ms) s =
    let n = counterpart ns m in
    let s' = record s {
      improved = true;
      differences = s.differences ++ classification_delta m.index m.role n.role ∷ [];
    } in
    elim (Bool-cases (same_identity m n)) [
      | inr e ↦ rw e refl
      | inl e ↦ rw e (elim (Bool-cases (same_class m n)) [
        | inl f ↦ rw f (
            bind-Outcome (All (Agrees same_context ns) ms) _ (classify same_context ns ms s) _
              (λ h. ((same_identity-eq m n e, ground (arith, f)), h))
              (classify-Agrees same_context ns ms s))
        | inr f ↦ rw f (elim (Bool-cases (refined same_context m n)) [
          | inl g ↦ rw g (
              bind-Outcome (All (Agrees same_context ns) ms) _ (classify same_context ns ms s') _
                (λ h. ((same_identity-eq m n e, ground (arith, g)), h))
                (classify-Agrees same_context ns ms s'))
          | inr g ↦ rw g refl
        ])
      ])
    ]
