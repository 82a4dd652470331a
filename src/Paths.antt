-- ===== src/Paths.antt =====
-- path.Join of Go on rooted paths, and path.Ext. A path is the list of its components after
-- `path.Clean`, so the data directory is taken to be an absolute path.
pub mod Plain
use Prim.Native.Char.{Char, code}
use salus_telemetry_envoy.Common.{
  ◌==◌, string_eq, ◌++◌, List, [], ◌∷◌, String, if◌then◌else◌, nat_beq, ◌≡◌, refl,
}

abbrev pub FilePath : Type 0
FilePath = List String

-- Puts a character in front of the first component.
attach : Char → List String → List String
attach c [] = String.◌∷◌ c String.[] ∷ []
attach c (s ∷ rest) = String.◌∷◌ c s ∷ rest

-- The text between slashes.
unfoldable pub components : String → List String
unfolding attach
components String.[] = String.[] ∷ []
components (String.◌∷◌ c s) =
    let rest = components s in if nat_beq (code c) b'/' then String.[] ∷ rest else attach c rest

-- All but the last item.
unfoldable pub parent : FilePath → FilePath
parent [] = []
parent (x ∷ []) = []
parent (x ∷ y ∷ xs) = x ∷ parent (y ∷ xs)

-- One component after a rooted, clean path: `..` at the root stays there.
unfoldable pub descend : FilePath → String → FilePath
unfolding parent
descend p s =
    if s == "" then p else if s == "." then p else if s == ".." then parent p else p ++ s ∷ []

unfoldable pub descend_all : FilePath → List String → FilePath
unfolding descend
descend_all p [] = p
descend_all p (s ∷ rest) = descend_all (descend p s) rest

-- path.Join(p, s), for a clean rooted p.
unfoldable pub join : FilePath → String → FilePath
unfolding components descend_all
join p s = descend_all p (components s)

-- The suffix from the last dot on, as path.Ext gives it for a name without a slash.
unfoldable pub ext_from : String → String → String
ext_from best String.[] = best
ext_from best (String.◌∷◌ c s) = ext_from (if nat_beq (code c) b'.' then String.◌∷◌ c s else best) s

unfoldable pub ext : String → String
unfolding ext_from
ext = ext_from ""

join_runs : join ("a" ∷ "b" ∷ []) "../c/./d.json" ≡ "a" ∷ "c" ∷ "d.json" ∷ []
unfolding join
join_runs = refl

ext_runs : ext "x.tar.json" ≡ ".json"
unfolding ext
ext_runs = refl
