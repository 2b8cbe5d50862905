-- ===== src/Base/Texts.antt =====
-- Text literals as the numbers of their characters.
use Prim.Native.Nat.{ℕ}
use Prim.Native.Char.{code}
use Prim.Native.String.{String}
use turning_machine_operatin.Base.Tests.{◌==◌, if◌then◌else◌}
use mathlib.Core.List.{List, [], ◌∷◌}

abbrev pub codes : String → List ℕ
codes String.[] = []
codes (String.◌∷◌ ch rest) = code ch ∷ codes rest

-- The characters of a C string: those before the first NUL.
unfoldable pub until_nul : List ℕ → List ℕ
until_nul [] = []
until_nul (ch ∷ rest) = let later = until_nul rest in if ch == 0 then [] else ch ∷ later
