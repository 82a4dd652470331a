-- ===== src/Commands/Configuration.antt =====
-- initConfig and Execute of cmd/root.go, the commands of cmd/check_tls.go and cmd/version.go, and
-- main.go. The configuration library, that
-- searches and reads the files, and the TLS library are parameters.
use salus_telemetry_envoy.Common.{
  ◌==◌, nat_eq, string_eq, texts_eq, List, [], ◌∷◌, String, if◌then◌else◌, arith, ◌≡◌, ℕ,
}
use Prim.Native.String.{◌++◌ as ◌++s◌}
use salus_telemetry_envoy.Common.Result.{Result, ok, err, Error}

-- Where the configuration library looks: one file, or a name in some directories.
pub data Source : Type 0 where
  file : String → Source
  search : String → List String → Source

unfoldable pub config_source : String → Source
config_source cfg_file =
    if cfg_file == ""
    then search "telemetry-envoy" ("/etc/salus" ∷ "$HOME/.salus" ∷ "." ∷ [])
    else file cfg_file

-- The file that was read, or none; or log.Fatal.
pub data Configured : Type 0 where
  read : String → Configured
  defaults : Configured
  fatal : String → Error → Configured

abbrev pub after_read : String → Result String → Configured
after_read cfg_file (ok used) = read used
after_read cfg_file (err e) =
    if cfg_file == "" then defaults else fatal "Failed to read config file" e

-- `read_in_config` gives the file that it used.
unfoldable pub init_config : (Source → Result String) → String → Configured
unfolding config_source
init_config read_in_config cfg_file = after_read cfg_file (read_in_config (config_source cfg_file))

-- What the command check-tls ends with.
pub data Checked : Type 0 where
  authenticated : Checked
  unable : String → Error → Checked

abbrev pub after_dial : Result (Unit {0}) → Checked
after_dial (ok _) = authenticated
after_dial (err e) = unable "Failed to connect to ambassador" e

unfoldable pub check_tls : {Certs : Type 0} → Result Certs → (Certs → Result (Unit {0})) → Checked
check_tls (err e) dial = unable "Failed to acquire client certificates" e
check_tls (ok c) dial = after_dial (dial c)

-- The start goes on without a configuration file only if none was named on the command line.
init_config-defaults :
    (read_in_config : Source → Result String) (cfg_file : String)
    → init_config read_in_config cfg_file ≡ defaults
    → cfg_file ≡ ""
unfolding init_config
init_config-defaults read_in_config cfg_file h = by_read (read_in_config (config_source cfg_file)) h
  where
    by_read : (r : Result String) → after_read cfg_file r ≡ defaults → cfg_file ≡ ""
    by_read (ok used) e = absurd (cc e)
    by_read (err x) e = ground (arith, string_eq.same_iff cfg_file "")

-- main.go: what a build may replace.
pub record VersionInfo : Type 0 where
  pub version : String
  pub commit : String
  pub date : String

abbrev pub default_version : VersionInfo
default_version = record { version = "dev"; commit = "none"; date = "unknown" }

-- The line that the command version prints.
unfoldable pub version_line : VersionInfo → String
version_line v = v.version ++s ", commit " ++s v.commit ++s ", built at " ++s v.date ++s "\n"

-- Execute: the text of an error is printed, and the process exits with 1.
pub data Executed : Type 0 where
  finished : Executed
  exited : String → ℕ → Executed

unfoldable pub execute : (Error → String) → Result (Unit {0}) → Executed
execute error_text (ok _) = finished
execute error_text (err e) = exited (error_text e) 1
