-- ===== src/Prelude/Text.antt =====
-- Slices of a `str`, by characters.
use Prim.Native.String.{String, [], ◌∷◌}
use sketchlog.Prelude.{ℕ, zero, suc}

-- `s[:n]`
unfoldable pub clip : ℕ → String → String
clip zero s = []
clip (suc n) [] = []
clip (suc n) (c ∷ s) = c ∷ clip n s
