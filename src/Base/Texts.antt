-- ===== src/Base/Texts.antt =====
-- Texts: joining them, with the operator apart from that on lists.
use Prim.Native.String.{String, ◌++◌}

infixr 65 ◌<>◌
abbrev pub ◌<>◌ : String → String → String
s <> t = s ++ t
