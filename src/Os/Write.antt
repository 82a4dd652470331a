-- ===== src/Os/Write.antt =====
-- The calls of `os` and `ioutil` that change the tree of files.
use salus_telemetry_envoy.Common.{
  ◌==◌, nat_eq, string_eq, texts_eq, ◌++◌, List, [], ◌∷◌, String, if◌then◌else◌, Bool, true, false,
  not, ◌&&◌, ◌||◌, ℕ, Option, none, some, length, drop,
}
use salus_telemetry_envoy.Common.Assoc.{Assoc}
use salus_telemetry_envoy.Common.Result.{
  Result, ok, err, not_exist, already_exists, denied, os_error,
}
use salus_telemetry_envoy.Paths.{FilePath, parent}
use salus_telemetry_envoy.Os.{Fs, Node, dir, file, node_at, put, drop_node, attempt}

abbrev pub Io {ℓ} : Type ℓ → Type ℓ
Io A = Fs → Result A × Fs

abbrev pub continue {ℓ κ} : {A : Type ℓ} {B : Type κ} → Result A → (A → Io B) → Io B
continue (ok a) k fs = k a fs
continue (err e) k fs = (err e, fs)

infixl 5 ◌>>=◌ ◌>>◌
abbrev pub ◌>>=◌ {ℓ κ} : {A : Type ℓ} {B : Type κ} → Io A → (A → Io B) → Io B
◌>>=◌ m k fs = let r = m fs in continue r.0 k r.1

abbrev pub ◌>>◌ {ℓ κ} : {A : Type ℓ} {B : Type κ} → Io A → Io B → Io B
m >> k = m >>= λ _. k

abbrev pub is_dir : Option Node → Bool
is_dir (some dir) = true
is_dir _ = false

abbrev pub has_dir : Fs → FilePath → Bool
has_dir fs [] = true
has_dir fs (s ∷ p) = is_dir (node_at fs (s ∷ p))

abbrev pub mkdir_at : FilePath → Option Node → Io (Unit {0})
mkdir_at p (some n) fs = (err (os_error already_exists), fs)
mkdir_at p none fs =
    if has_dir fs (parent p) then (ok tt, put fs p dir) else (err (os_error not_exist), fs)

unfoldable pub mkdir : FilePath → Io (Unit {0})
mkdir p = attempt λ fs. mkdir_at p (node_at fs p) fs

-- os.MkdirAll makes what is missing on the way, and refuses a file on it.
unfoldable pub make_dirs : FilePath → List String → Io (Unit {0})
make_dirs p [] fs = (ok tt, fs)
make_dirs p (s ∷ rest) fs = elim (node_at fs (p ++ s ∷ [])) [
  | none ↦ make_dirs (p ++ s ∷ []) rest (put fs (p ++ s ∷ []) dir)
  | some (file c) ↦ (err (os_error denied), fs)
  | _ ↦ make_dirs (p ++ s ∷ []) rest fs
]

unfoldable pub mkdir_all : FilePath → Io (Unit {0})
unfolding make_dirs
mkdir_all p = attempt (make_dirs [] p)

abbrev pub starts : FilePath → FilePath → Bool
starts [] q = true
starts (a ∷ p) [] = false
starts (a ∷ p) (b ∷ q) = a == b && starts p q

-- The nodes that are neither p nor below p.
unfoldable pub outside : FilePath → Assoc FilePath Node → Assoc FilePath Node
outside p [] = []
outside p ((q, n) ∷ rest) = let kept = outside p rest in if starts p q then kept else (q, n) ∷ kept

unfoldable pub remove_all : FilePath → Io (Unit {0})
unfolding outside
remove_all p = attempt λ fs. (ok tt, record fs { nodes = outside p fs.nodes })

abbrev pub has_entries : FilePath → Assoc FilePath Node → Bool
has_entries p [] = false
has_entries p ((q, n) ∷ rest) = (starts p q && not (p == q)) || has_entries p rest

abbrev pub remove_at : FilePath → Option Node → Io (Unit {0})
remove_at p none fs = (err (os_error not_exist), fs)
remove_at p (some dir) fs =
    if has_entries p fs.nodes then (err (os_error denied), fs) else (ok tt, drop_node fs p)
remove_at p (some _) fs = (ok tt, drop_node fs p)

unfoldable pub remove : FilePath → Io (Unit {0})
remove p = attempt λ fs. remove_at p (node_at fs p) fs

abbrev pub open_at : Bool → FilePath → Option Node → Io (List ℕ)
open_at trunc p none fs =
    if has_dir fs (parent p) then (ok [], put fs p (file [])) else (err (os_error not_exist), fs)
open_at true p (some (file old)) fs = (ok [], put fs p (file []))
open_at false p (some (file old)) fs = (ok old, fs)
open_at _ p (some _) fs = (err (os_error denied), fs)

-- os.OpenFile for writing, with O_CREATE; the flag is O_TRUNC. Returns what the file then holds.
unfoldable pub open_file : Bool → FilePath → Io (List ℕ)
open_file trunc p = attempt λ fs. open_at trunc p (node_at fs p) fs

-- Writing from the start of the file leaves what stands behind the bytes written.
abbrev pub over : List ℕ → List ℕ → List ℕ
over new old = new ++ drop (length new) old

unfoldable pub write_bytes : FilePath → List ℕ → List ℕ → Io (Unit {0})
write_bytes p new old = attempt λ fs. (ok tt, put fs p (file (over new old)))

-- ioutil.WriteFile: O_TRUNC.
unfoldable pub write_file : FilePath → List ℕ → Io (Unit {0})
unfolding open_file write_bytes
write_file p new = do old ← open_file true p; write_bytes p new old
