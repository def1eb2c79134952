-- ===== src/Evidence/Sources.antt =====
-- The classes of failed sources: `_loss_class` and `has_retryable_source_gaps`
-- (evidence_comparison.py).
use crash_cap.Base.{
  String, ◌≡◌, refl, Bool, true, false, not, ◌&&◌, ◌||◌, List, [], ◌∷◌, if◌then◌else◌, keep_if, sym,
  ◌∙◌, ◌++◌, arith, inl, inr, Bool-cases,
}
use crash_cap.Base.Keys.{◌==◌, text_keys}
use package.text.Mathlib.TextEquality.{eq_iff}
use crash_cap.Evidence.{SourceOutcome, ModuleEvidence, one_of, is_digest, some_module}

-- any(...) and all(...) over sources
abbrev pub some_source : (SourceOutcome → Bool) → List SourceOutcome → Bool
some_source p [] = false
some_source p (s ∷ ss) = let rest = some_source p ss in p s || rest

abbrev pub every_source : (SourceOutcome → Bool) → List SourceOutcome → Bool
every_source p [] = true
every_source p (s ∷ ss) = let rest = every_source p ss in p s && rest

pub data LossClass : Type 0 where
  permanent transient unknown : LossClass

abbrev pub stages_of : String → List String
stages_of stage =
    if stage == "unwind" then "unwind" ∷ "download_pe" ∷ [] else "symbolicate" ∷ "download_pdb" ∷ []

-- The sources of the stage that found nothing.
abbrev pub misses : ModuleEvidence → String → SourceOutcome → Bool
misses m stage s = one_of s.stage (stages_of stage) && not (s.outcome == "found")

abbrev pub failed_in_passing : SourceOutcome → Bool
failed_in_passing s =
    s.outcome == "failed" && s.failure_class == "transient" && is_digest s.diagnostic_sha256

abbrev pub gone : SourceOutcome → Bool
gone s = s.outcome == "missing" || s.failure_class == "permanent"

unfoldable pub class_of : List SourceOutcome → LossClass
class_of [] = unknown
class_of (s ∷ ss) =
    if some_source gone (s ∷ ss)
    then permanent
    else if every_source failed_in_passing (s ∷ ss)
    then transient
    else unknown

abbrev no_symbols : String → Bool
no_symbols status = one_of status ("missing" ∷ "malformed" ∷ "unsupported" ∷ [])

-- _loss_class
unfoldable pub loss_class : ModuleEvidence → String → LossClass
unfolding class_of
loss_class m stage =
    if stage == "symbols" && no_symbols m.symbol_status
    then permanent
    else class_of (keep_if (misses m stage) m.sources)

-- A peer of the same stage found what `s` did not.
abbrev pub covered : ModuleEvidence → SourceOutcome → Bool
covered m s = some_source (λ t. t.stage == s.stage && t.outcome == "found") m.sources

abbrev pub is_gap : ModuleEvidence → SourceOutcome → Bool
is_gap m s =
    is_digest s.diagnostic_sha256
    && ((s.outcome == "failed" && s.failure_class == "transient")
        || (s.outcome == "unknown" && s.reason == "source_budget_exhausted_before_request"))
    && not (m.symbol_status == "found" && one_of s.stage ("symbolicate" ∷ "download_pdb" ∷ []))
    && not (covered m s)

unfoldable pub has_retryable_source_gaps : List ModuleEvidence → Bool
has_retryable_source_gaps ms = some_module (λ m. some_source (is_gap m) m.sources) ms

some_source-keep_if :
    (p q : SourceOutcome → Bool) (ss : List SourceOutcome)
    → some_source p (keep_if q ss) ≡ some_source (λ s. q s && p s) ss
some_source-keep_if p q [] = refl
some_source-keep_if p q (s ∷ ss) = ground (arith, some_source-keep_if p q ss)

class_of-transient :
    (ss : List SourceOutcome) → class_of ss ≡ transient → some_source failed_in_passing ss ≡ true
unfolding class_of
class_of-transient [] e = ground arith
class_of-transient (s ∷ ss) e = ground (arith, e)

-- No source of the stage found anything.
abbrev pub found_none : String → List SourceOutcome → Bool
found_none stage ss =
    not (some_source (λ s. one_of s.stage (stages_of stage) && s.outcome == "found") ss)

not_covered :
    (stage : String) (s : SourceOutcome) (ts : List SourceOutcome)
    → found_none stage ts ≡ true
    → one_of s.stage (stages_of stage) ≡ true
    → some_source (λ t. t.stage == s.stage && t.outcome == "found") ts ≡ false
not_covered stage s [] f o = refl
not_covered stage s (t ∷ ts) f o =
    ground (arith, f, o, not_covered stage s ts, eq_iff t.stage s.stage)

some_source_mono :
    (p q : SourceOutcome → Bool) (imp : (s : SourceOutcome) → p s ≡ true → q s ≡ true)
    (ss : List SourceOutcome)
    → some_source p ss ≡ true
    → some_source q ss ≡ true
some_source_mono p q imp [] e = e
some_source_mono p q imp (s ∷ ss) e = elim (Bool-cases (p s)) [
  | inl h ↦ ground (arith, imp s h)
  | inr h ↦ ground (arith, e, h, some_source_mono p q imp ss)
]

-- The test of a gap, of what it reads.
gap_test :
    (fails passes digest budget symbols reads covers : Bool)
    → (fails && passes && digest) ≡ true
    → symbols ≡ false
    → covers ≡ false
    → (digest && ((fails && passes) || budget) && not (symbols && reads) && not covers) ≡ true
gap_test fails passes digest budget symbols reads covers e n c = ground (arith, e, n, c)

left_true : (a b : Bool) → (a && b) ≡ true → a ≡ true
left_true a b e = ground (arith, e)

right_true : (a b : Bool) → (a && b) ≡ true → b ≡ true
right_true a b e = ground (arith, e)

gap_of :
    (m : ModuleEvidence) (stage : String) (s : SourceOutcome)
    → (m.symbol_status == "found") ≡ false
    → found_none stage m.sources ≡ true
    → (misses m stage s && failed_in_passing s) ≡ true
    → is_gap m s ≡ true
gap_of m stage s n f e =
    gap_test (s.outcome == "failed") (s.failure_class == "transient")
      (is_digest s.diagnostic_sha256) _ (m.symbol_status == "found") _ (covered m s)
      (right_true (misses m stage s) (failed_in_passing s) e) n
      (not_covered stage s m.sources f (left_true _ _ (left_true _ _ e)))

some_module-append :
    (p : ModuleEvidence → Bool) (m : ModuleEvidence) (before rest : List ModuleEvidence)
    → p m ≡ true
    → some_module p (before ++ m ∷ rest) ≡ true
some_module-append p m [] rest e = ground (arith, e)
some_module-append p m (b ∷ before) rest e = ground (arith, some_module-append p m before rest e)

-- A loss that is classed transient leaves a gap that is retried, where no source of the stage found
-- anything and the symbols of the module are not found.
pub loss_class-retryable :
    (m : ModuleEvidence) (stage : String) (before rest : List ModuleEvidence)
    → loss_class m stage ≡ transient
    → (m.symbol_status == "found") ≡ false
    → found_none stage m.sources ≡ true
    → has_retryable_source_gaps (before ++ m ∷ rest) ≡ true
unfolding loss_class has_retryable_source_gaps
loss_class-retryable m stage before rest e n f = some_module-append _ m before rest (
    some_source_mono _ (is_gap m) (λ s. gap_of m stage s n f) m.sources
      (sym (some_source-keep_if failed_in_passing (misses m stage) m.sources)
        ∙ class_of-transient (keep_if (misses m stage) m.sources) (ground (arith, e))))
