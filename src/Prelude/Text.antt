-- ===== src/Prelude/Text.antt =====
-- Texts: their length and their prefixes.
use Prim.Native.String.{String, [], ◌∷◌}
use can_framework.Prelude.{ℕ, zero, suc}

unfoldable pub length : String → ℕ
length [] = 0
length (c ∷ s) = suc (length s)

-- `s[:n]`
unfoldable pub take : ℕ → String → String
take zero s = []
take (suc n) [] = []
take (suc n) (c ∷ s) = c ∷ take n s
