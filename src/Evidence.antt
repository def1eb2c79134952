-- ===== src/Evidence.antt =====
-- The evidence that two analyses are compared by: platform/api/crashcap_api/evidence_comparison.py.
-- The children hold the shape of evidence, the classes of failed sources, and the alignment of frames.
pub mod Sources
pub mod Shape
pub mod Decision
pub mod Frames
pub mod Modules
pub mod Comparison
pub mod Alignment
mod Tests
use crash_cap.Base.{
  ℕ, zero, suc, String, Bool, true, false, not, ◌&&◌, ◌||◌, Option, none, some, List, [], ◌∷◌,
  is_some, nat_eq, if◌then◌else◌,
}
use crash_cap.Base.Keys.{◌==◌, text_keys}
use Prim.Native.String.{◌∷◌ as cons_char, [] as no_chars}

pub record SourceOutcome : Type 0 where
  pub source_id : String
  pub stage : String
  pub outcome : String
  pub failure_class : String
  pub reason : String
  pub diagnostic_sha256 : Option String

pub record ModuleEvidence : Type 0 where
  pub index : ℕ
  pub identity : Option String × Option String × String
  pub role : String
  pub in_app : Bool
  pub selection_state : String
  pub pair_id : Option String
  pub symbol_status : String
  pub sources : List SourceOutcome
  pub role_source : String

pub record FrameEvidence : Type 0 where
  pub thread_id : ℕ
  pub module_index : ℕ
  pub rva : ℕ
  pub unwind_method : Option String
  pub in_app : Bool
  pub function : Option String
  pub file : Option String
  pub line : Option ℕ

-- `x in {...}`
unfoldable pub one_of : String → List String → Bool
one_of s [] = false
one_of s (t ∷ ts) = s == t || one_of s ts

-- `x in {..., None}`
abbrev pub none_or : Option String → List String → Bool
none_or none ts = true
none_or (some s) ts = one_of s ts

abbrev hex_digits : List String
hex_digits =
    "0" ∷ "1" ∷ "2" ∷ "3" ∷ "4" ∷ "5" ∷ "6" ∷ "7" ∷ "8" ∷ "9" ∷ "a" ∷ "b" ∷ "c" ∷ "d" ∷ "e" ∷ "f"
    ∷ []

-- `len(s) == n and all(c in "0123456789abcdef" for c in s)`
unfoldable pub hex_text : ℕ → String → Bool
unfolding one_of
hex_text zero no_chars = true
hex_text zero (cons_char c s) = false
hex_text (suc n) no_chars = false
hex_text (suc n) (cons_char c s) =
    let rest = hex_text n s in one_of (cons_char c "") hex_digits && rest

unfoldable pub is_digest : Option String → Bool
unfolding hex_text
is_digest none = false
is_digest (some s) = hex_text 64 s

abbrev pub some_module : (ModuleEvidence → Bool) → List ModuleEvidence → Bool
some_module p [] = false
some_module p (m ∷ ms) = let rest = some_module p ms in p m || rest
