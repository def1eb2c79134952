-- ===== src/Base/Keys.antt =====
-- Keys that can be compared: texts, and pairs of keys.
use Prim.Native.String.{String}
use mathlib.Core.Path.{◌≡◌}
use mathlib.Core.Logic.{◌↔◌}
use mathlib.Core.Bool.{Bool, true, ◌&&◌}
use native.Mathlib.Omega.{arith}
use text.Mathlib.Text.{◌==◌ as str_eq}
use text.Mathlib.TextEquality.{eq_iff}

-- Python's `==` on the keys of a table.
pub record Comparable {ℓ} (K : Type ℓ) : Type ℓ where
  pub same : K → K → Bool
  pub same_iff : (j k : K) → (same j k ≡ true) ↔ (j ≡ k)

infix 50 ◌==◌
abbrev pub ◌==◌ {ℓ} : {K : Type ℓ} ⦃c : Comparable K⦄ → K → K → Bool
◌==◌ ⦃c⦄ j k = c.same j k

instance abbrev pub text_keys : Comparable String
text_keys = record { same = str_eq; same_iff = eq_iff }

abbrev pub same_pair : String × String → String × String → Bool
same_pair j k = str_eq j.0 k.0 && str_eq j.1 k.1

pub same_pair_iff : (j k : String × String) → (same_pair j k ≡ true) ↔ (j ≡ k)
same_pair_iff (a, b) (c, d) = ground (arith, eq_iff a c, eq_iff b d)

instance abbrev pub pair_keys : Comparable (String × String)
pair_keys = record { same = same_pair; same_iff = same_pair_iff }
