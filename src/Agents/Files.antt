-- ===== src/Agents/Files.antt =====
-- agents/agents.go: the files of an agent. `Check` is a function that returns a bool.
pub mod Content
pub mod Extract
use salus_telemetry_envoy.Common.{
  ◌==◌, string_eq, List, [], ◌∷◌, String, if◌then◌else◌, Bool, true, false, ◌&&◌, ◌||◌, ℕ,
}
use salus_telemetry_envoy.Common.Result.{
  Result, ok, err, Error, message, wrap_err, is_ok, is_not_exist,
}
use salus_telemetry_envoy.Common.Bytes
use salus_telemetry_envoy.Paths.{FilePath, join, ext, components}
use salus_telemetry_envoy.Protocol.{ConfigurationOp, OpType, create, modify}
use salus_telemetry_envoy.Os.{Fs, attempt, found_or_missing, follow, stat, readdirnames}
use salus_telemetry_envoy.Os.Write.{
  Io, ◌>>=◌, ◌>>◌, mkdir, mkdir_all, remove, remove_all, write_file, open_file, write_bytes,
}
use salus_telemetry_envoy.Agents.Convert.{Codec, convert_json_to_telegraf_toml}

abbrev pub Check : Type 0
Check = Fs → Bool × Fs

abbrev pub and_then : Check → Check → Check
and_then c d fs = let r = c fs in if r.0 then d r.1 else (false, r.1)

-- Whether a call succeeds.
abbrev pub succeeds : {A : Type 0} → Io A → Check
succeeds m fs = let r = m fs in (is_ok r.0, r.1)

abbrev pub current_ver_link : String
current_ver_link = "CURRENT"

abbrev pub configs_dir_subpath : String
configs_dir_subpath = "config.d"

abbrev pub bin_subpath : String
bin_subpath = "bin"

abbrev pub bytes : String → List ℕ
bytes = Bytes.of

unfoldable pub file_exists : FilePath → Check
file_exists p = succeeds (stat p)

unfoldable pub purge_configs_directory : FilePath → Io (Unit {0})
purge_configs_directory base fs =
    let r = remove_all (join base configs_dir_subpath) fs in
    (wrap_err "failed to purge configs directory" r.0, r.1)

unfoldable pub ensure_configs_dir : FilePath → Io FilePath
ensure_configs_dir base = do
  mkdir_all (join base configs_dir_subpath)
  λ fs. (ok (join base configs_dir_subpath), fs)

-- filepath.Join(basepath, buildRelativeExePath(exeName))
unfoldable pub full_exe_path : FilePath → String → FilePath
full_exe_path base exe = join (join (join base current_ver_link) bin_subpath) exe

abbrev pub any_with_ext : String → List String → Bool
any_with_ext e [] = false
any_with_ext e (n ∷ rest) = ext n == e || any_with_ext e rest

abbrev pub listing_has : String → Result (List String) × Fs → Bool × Fs
listing_has e (ok names, fs) = (any_with_ext e names, fs)
listing_has e (err _, fs) = (false, fs)

unfoldable pub has_config_files : FilePath → String → Check
has_config_files p e fs = listing_has e (readdirnames p fs)

unfoldable pub has_configs_and_exe_ready : FilePath → String → String → Check
unfolding file_exists has_config_files full_exe_path
has_configs_and_exe_ready base exe e = and_then (file_exists (join base current_ver_link)) (
    and_then (file_exists (join base configs_dir_subpath)) (
      and_then
        (succeeds
          (attempt λ fs. (found_or_missing (follow fs (join base configs_dir_subpath)), fs)))
        (and_then (has_config_files (join base configs_dir_subpath) e)
          (file_exists (full_exe_path base exe)))))

pub data Conversion : Type 0 where
  conversion_none conversion_json_to_telegraf_toml : Conversion

abbrev pub write_converted : FilePath → Result (List ℕ) → Check
write_converted p (err _) fs = (false, fs)
write_converted p (ok c) fs = succeeds (write_file p c) fs

abbrev pub removed_or_absent : Result (Unit {0}) × Fs → Bool × Fs
removed_or_absent (ok _, fs) = (true, fs)
removed_or_absent (err e, fs) = (is_not_exist e, fs)

module _ (codec : Codec) where
  unfoldable pub final_config : ConfigurationOp → Conversion → Result (List ℕ)
  final_config op conversion_none = ok (bytes op.content)
  final_config op conversion_json_to_telegraf_toml =
      convert_json_to_telegraf_toml codec op.content op.extra_labels op.interval

  abbrev pub content_op : OpType → ConfigurationOp → FilePath → Conversion → Check
  content_op create op p c fs = write_converted p (final_config op c) fs
  content_op modify op p c fs = write_converted p (final_config op c) fs
  content_op OpType.remove op p c fs = removed_or_absent (remove p fs)
  content_op (OpType.unknown_op _) op p c fs = (false, fs)

  unfoldable pub handle_content_configuration_op : ConfigurationOp → FilePath → Conversion → Check
  unfolding final_config
  handle_content_configuration_op op p c = content_op op.op_type op p c

-- What the tar reader's Next gives until io.EOF, which is the end of the list. `corrupt` is any
-- other error, where the header is nil; `copied` says whether the entry's content can be read whole.
pub data TarItem : Type 0 where
  entry : String → List ℕ → Bool → TarItem
  corrupt : TarItem

pub data Download : Type 0 where
  unreachable not_gzip : Download
  archive : List TarItem → Download

-- A Go panic is a value of its own.
pub data Run {ℓ} (A : Type ℓ) : Type ℓ where
  returned : A → Run A
  panicked : Run A

abbrev pub map_run : {A B : Type 0} → (A → B) → Run A → Run B
map_run f (returned a) = returned (f a)
map_run f panicked = panicked

abbrev pub last_or : String → List String → String
last_or d [] = d
last_or d (s ∷ rest) = last_or s rest

-- The file name of path.Split.
unfoldable pub file_name : String → String
file_name p = last_or "" (components p)

-- io.Copy into the file: an entry that cannot be read whole is an error after what was written.
abbrev pub copy_entry : FilePath → List ℕ → Bool → List ℕ → Check
copy_entry p content copied old fs =
    let r = succeeds (write_bytes p content old) fs in (r.0 && copied, r.1)

abbrev pub copy_opened : FilePath → List ℕ → Bool → Result (List ℕ) × Fs → Bool × Fs
copy_opened p content copied (ok old, fs) = copy_entry p content copied old fs
copy_opened p content copied (err _, fs) = (false, fs)

unfoldable pub extract_entry : FilePath → List ℕ → Bool → Check
extract_entry p content copied fs = copy_opened p content copied (open_file false p fs)

-- The loop over the archive, with processedExe.
unfoldable pub extract : FilePath → String → Bool → List TarItem → Fs → Run Bool × Fs
unfolding extract_entry
extract p exe processed [] fs = (returned processed, fs)
extract p exe processed (corrupt ∷ rest) fs = (panicked, fs)
extract p exe processed (entry name content copied ∷ rest) fs =
    let r = if name == exe then extract_entry p content copied fs else (false, fs) in
    extract p exe (processed || r.0) rest r.1

abbrev pub found_exe : Run Bool × Fs → Run (Result (Unit {0})) × Fs
found_exe (returned true, fs) = (returned (ok tt), fs)
found_exe (returned false, fs) =
    (returned (err (message "failed to find/process agent executable")), fs)
found_exe (panicked, fs) = (panicked, fs)

abbrev pub extract_into :
    FilePath → String → List TarItem → Result (Unit {0}) × Fs → Run (Result (Unit {0})) × Fs
extract_into bin exe items (ok _, fs) =
    found_exe (extract (join bin (file_name exe)) exe false items fs)
extract_into bin exe items (err e, fs) =
    (returned (wrap_err "unable to create bin directory" (err e)), fs)

unfoldable pub download_extract_tar_gz :
    FilePath → Download → String → Fs → Run (Result (Unit {0})) × Fs
unfolding extract file_name
download_extract_tar_gz out unreachable exe fs =
    (returned (err (message "failed to download agent")), fs)
download_extract_tar_gz out not_gzip exe fs =
    (returned (err (message "unable to ungzip agent download")), fs)
download_extract_tar_gz out (archive items) exe fs =
    extract_into (join out bin_subpath) exe items (mkdir (join out bin_subpath) fs)
