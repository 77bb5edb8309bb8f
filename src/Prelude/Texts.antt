-- ===== src/Prelude/Texts.antt =====
-- Texts: what stands together, and the first characters.
use Prim.Native.Nat.{ℕ, zero, suc}
use Prim.Native.String.{String, [], ◌∷◌, ◌++◌}

abbrev pub append : String → String → String
append s t = s ++ t

-- `s[:n]`
unfoldable pub truncated : ℕ → String → String
truncated zero s = ""
truncated (suc n) [] = ""
truncated (suc n) (c ∷ s) = c ∷ truncated n s
