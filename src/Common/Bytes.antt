-- ===== src/Common/Bytes.antt =====
-- The bytes of a text, as []byte(s) gives them for ASCII.
use Prim.Native.Nat.{ℕ}
use Prim.Native.Char.{code}
use Prim.Native.String.{String}
use mathlib.Core.List.{List, [], ◌∷◌}

abbrev pub of : String → List ℕ
of String.[] = []
of (String.◌∷◌ c s) = code c ∷ of s
