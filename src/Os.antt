-- ===== src/Os.antt =====
-- The `os` and `ioutil` calls of Go that the code makes, on a tree of files. Each call may fail for
-- a reason of its own (a permission, a full disk): whether it does is the next item of `faults`.
pub mod Write
use salus_telemetry_envoy.Common.{
  ◌==◌, string_eq, texts_eq, ◌++◌, List, [], ◌∷◌, String, if◌then◌else◌, Bool, false, ℕ, zero, suc,
  Option, none, some,
}
use salus_telemetry_envoy.Common.Assoc.{Assoc, lookup, insert, erase}
use salus_telemetry_envoy.Common.Result.{
  Result, ok, err, OsError, not_exist, already_exists, denied, Error, os_error,
}
use salus_telemetry_envoy.Paths.{FilePath, parent, components, descend}

pub data Node : Type 0 where
  dir : Node
  file : List ℕ → Node
  link : String → Node

pub record Fs : Type 0 where
  pub nodes : Assoc FilePath Node
  pub faults : List Bool

abbrev pub next_fault : List Bool → Bool
next_fault [] = false
next_fault (b ∷ rest) = b

abbrev pub later_faults : List Bool → List Bool
later_faults [] = []
later_faults (b ∷ rest) = rest

abbrev pub skip : Fs → Fs
skip fs = record fs { faults = later_faults fs.faults }

-- A call that fails for a reason of its own changes nothing.
abbrev pub attempt : {A : Type 0} → (Fs → Result A × Fs) → Fs → Result A × Fs
attempt op fs = if next_fault fs.faults then (err (os_error denied), skip fs) else op (skip fs)

abbrev pub node_at : Fs → FilePath → Option Node
node_at fs p = lookup p fs.nodes

abbrev pub put : Fs → FilePath → Node → Fs
put fs p n = record fs { nodes = insert p n fs.nodes }

abbrev pub drop_node : Fs → FilePath → Fs
drop_node fs p = record fs { nodes = erase p fs.nodes }

-- Follows symbolic links component by component; the number bounds the links, as ELOOP does.
unfoldable pub walk : ℕ → Fs → FilePath → List String → Option FilePath
walk links fs p [] = some p
walk zero fs p (s ∷ rest) = elim (node_at fs (descend p s)) [
  | some (link t) ↦ none
  | _ ↦ walk zero fs (descend p s) rest
]
walk (suc links) fs p (s ∷ rest) = elim (node_at fs (descend p s)) [
  | some (link t) ↦ walk links fs p (components t ++ rest)
  | _ ↦ walk (suc links) fs (descend p s) rest
]

abbrev pub max_links : ℕ
max_links = 40

unfoldable pub follow : Fs → FilePath → Option Node
unfolding walk
follow fs p = elim (walk max_links fs [] p) [ none ↦ none | some q ↦ node_at fs q ]

abbrev pub found_or_missing : Option Node → Result Node
found_or_missing none = err (os_error not_exist)
found_or_missing (some n) = ok n

-- os.Stat follows links; os.Lstat does not.
unfoldable pub stat : FilePath → Fs → Result Node × Fs
stat p = attempt λ fs. (found_or_missing (follow fs p), fs)

unfoldable pub lstat : FilePath → Fs → Result Node × Fs
lstat p = attempt λ fs. (found_or_missing (node_at fs p), fs)

abbrev pub link_target : Option Node → Result String
link_target (some (link t)) = ok t
link_target (some _) = err (os_error denied)
link_target none = err (os_error not_exist)

unfoldable pub readlink : FilePath → Fs → Result String × Fs
readlink p = attempt λ fs. (link_target (node_at fs p), fs)

abbrev pub symlink_at : String → FilePath → Option Node → Fs → Result (Unit {0}) × Fs
symlink_at t p none fs = (ok tt, put fs p (link t))
symlink_at t p (some _) fs = (err (os_error already_exists), fs)

-- os.Symlink(t, p); the directory of p is there wherever the code calls it
unfoldable pub symlink : String → FilePath → Fs → Result (Unit {0}) × Fs
symlink t p = attempt λ fs. symlink_at t p (node_at fs p) fs

-- Puts the name of q in front, if q stands right below p.
abbrev name_below : FilePath → FilePath → List String → List String
name_below [] [] more = more
name_below [] (s ∷ []) more = s ∷ more
name_below [] (s ∷ t ∷ u) more = more
name_below (a ∷ p) [] more = more
name_below (a ∷ p) (b ∷ q) more = if a == b then name_below p q more else more

unfoldable pub names_in : FilePath → Assoc FilePath Node → List String
names_in p [] = []
names_in p ((q, n) ∷ rest) = name_below p q (names_in p rest)

unfoldable pub readdirnames : FilePath → Fs → Result (List String) × Fs
unfolding names_in
readdirnames p = attempt λ fs. (ok (names_in p fs.nodes), fs)
