-- ===== src/Prelude/Ascii.antt =====
-- The bytes of an ASCII text literal.
use Prim.Native.Nat.{ℕ}
use Prim.Native.Char.{code}
use Prim.Native.String.{String}
use mathlib.Core.List.{List, [], ◌∷◌}

abbrev pub ascii : String → List ℕ
ascii String.[] = []
ascii (String.◌∷◌ c text) = let rest = ascii text in code c ∷ rest
