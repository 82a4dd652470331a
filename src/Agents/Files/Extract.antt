-- ===== src/Agents/Files/Extract.antt =====
-- The loop over a downloaded archive.
use salus_telemetry_envoy.Common.{
  ◌==◌, nat_eq, string_eq, texts_eq, List, [], ◌∷◌, String, if◌then◌else◌, Bool, true, false, arith,
  ◌≡◌, ◌⊎◌, refl, ◌&&◌, ◌||◌, ℕ,
}
use salus_telemetry_envoy.Paths.{FilePath}
use salus_telemetry_envoy.Os.{Fs}
use salus_telemetry_envoy.Agents.Files.{
  TarItem, entry, corrupt, Run, returned, panicked, extract_entry, extract,
}

abbrev pub has_corrupt : List TarItem → Bool
has_corrupt [] = false
has_corrupt (corrupt ∷ rest) = true
has_corrupt (entry name content copied ∷ rest) = has_corrupt rest

-- The executable's entry, read whole, is in the archive.
abbrev pub has_exe : String → List TarItem → Bool
has_exe exe [] = false
has_exe exe (corrupt ∷ rest) = has_exe exe rest
has_exe exe (entry name content copied ∷ rest) = (name == exe && copied) || has_exe exe rest

-- The result of the loop from a given processedExe.
abbrev pub Outcome : Bool → String → List TarItem → Run Bool → Type 0
Outcome processed exe items panicked = has_corrupt items ≡ true
Outcome processed exe items (returned b) =
    (has_corrupt items ≡ false) × ((b ≡ false) ⊎ ((processed || has_exe exe items) ≡ true))

extract_entry_copied :
    (p : FilePath) (content : List ℕ) (copied : Bool) (fs : Fs)
    → ((extract_entry p content copied fs).0 ≡ false) ⊎ (copied ≡ true)
unfolding extract_entry
extract_entry_copied p content copied fs = ground arith

entry-Outcome :
    (exe name : String) (content : List ℕ) (copied processed found : Bool) (rest : List TarItem)
    (r : Run Bool)
    → (found ≡ false) ⊎ ((name == exe) ≡ true) × (copied ≡ true)
    → Outcome (processed || found) exe rest r
    → Outcome processed exe (entry name content copied ∷ rest) r
entry-Outcome exe name content copied processed found rest panicked f o = o
entry-Outcome exe name content copied processed found rest (returned b) f o = ground arith

-- The loop panics exactly on an archive whose reading fails before its end, where the header is
-- nil; otherwise it returns, and reports the executable as processed only if the archive has an
-- entry of that name that can be read whole, or it was processed before.
pub extract-Outcome :
    (p : FilePath) (exe : String) (items : List TarItem) (processed : Bool) (fs : Fs)
    → Outcome processed exe items (extract p exe processed items fs).0
unfolding extract
extract-Outcome p exe [] processed fs = (refl, ground arith)
extract-Outcome p exe (corrupt ∷ rest) processed fs = refl
extract-Outcome p exe (entry name content copied ∷ rest) processed fs =
    let r = if name == exe then extract_entry p content copied fs else (false, fs) in
    entry-Outcome exe name content copied processed r.0 rest _
      (ground (arith, extract_entry_copied p content copied fs))
      (extract-Outcome p exe rest (processed || r.0) r.1)
