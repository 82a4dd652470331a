-- ===== src/Agents/JsonFiles.antt =====
-- agents/pkgagent.go and agents/oracle.go: the configuration files of the packages and the oracle
-- agents, one JSON file for each operation's id.
pub mod Rewrite
pub mod Null
use salus_telemetry_envoy.Common.{
  string_eq, List, String, if◌then◌else◌, Bool, true, false, ℕ, Option, none, some,
}
use salus_telemetry_envoy.Common.Assoc.{Assoc, insert, erase}
use salus_telemetry_envoy.Common.Result.{Result, ok, err, wrap_err, is_not_exist}
use salus_telemetry_envoy.Protocol.{ConfigurationOp, OpType, create, modify, unknown_op}
use salus_telemetry_envoy.Paths.{FilePath}
use salus_telemetry_envoy.Os.{Fs}
use salus_telemetry_envoy.Os.Write.{Io, remove, open_file, write_bytes}
use salus_telemetry_envoy.Agents.Convert.{
  Codec, Value, text, int, seconds, normalize_keys_to_kebab_case,
}
use salus_telemetry_envoy.Agents.Files.{Run, returned, panicked, ensure_configs_dir}
use salus_telemetry_envoy.Agents.Operations.{apply_ops}
use salus_telemetry_envoy.Agents.Filebeat.{config_instance_path}

-- Which of the two agents writes the file, with the word for it in the messages.
pub data JsonAgent : Type 0 where
  packages_json oracle_json : JsonAgent

abbrev pub write_failed : JsonAgent → String
write_failed packages_json = "failed to process package agent config file"
write_failed oracle_json = "failed to process oracle agent config file"

abbrev pub remove_failed : JsonAgent → String
remove_failed packages_json = "failed to remove package agent config file"
remove_failed oracle_json = "failed to remove oracle agent config file"

module _ (codec : Codec) where
  open codec use {Tree, Float, decode, encode_json, duration_text}

  -- What writeConfigFile puts into the file, from the decoded map.
  unfoldable pub file_map :
      JsonAgent → ℕ → Assoc String (Value Tree Float) → Assoc String (Value Tree Float)
  file_map packages_json interval m =
      normalize_keys_to_kebab_case codec
        (insert "interval" (text (duration_text (seconds interval))) (erase "type" m))
  file_map oracle_json interval m = insert "interval" (int interval) m

  -- json.Encoder.Encode writes nothing if the encoding fails.
  abbrev pub encode_into :
      FilePath → Result (List ℕ) → Result (List ℕ) × Fs → Result (Unit {0}) × Fs
  encode_into path content (err e, fs) = (err e, fs)
  encode_into path (err e) (ok old, fs) = (err e, fs)
  encode_into path (ok new) (ok old, fs) = write_bytes path new old fs

  -- After Unmarshal: the store of "interval" into a nil map panics.
  abbrev pub write_decoded :
      JsonAgent
      → FilePath
      → ConfigurationOp
      → Result (Option (Assoc String (Value Tree Float)))
      → Fs
      → Run (Result (Unit {0})) × Fs
  write_decoded agent path op (err e) fs = (returned (err e), fs)
  write_decoded agent path op (ok none) fs = (panicked, fs)
  write_decoded agent path op (ok (some m)) fs =
      let r =
        encode_into path (encode_json (file_map agent op.interval m)) (open_file false path fs) in
      (returned r.0, r.1)

  unfoldable pub write_config_file :
      JsonAgent → FilePath → ConfigurationOp → Fs → Run (Result (Unit {0})) × Fs
  unfolding file_map
  write_config_file agent path op = write_decoded agent path op (decode op.content)

  abbrev pub written : JsonAgent → Run (Result (Unit {0})) × Fs → Run (Result Bool) × Fs
  written agent (returned (ok _), fs) = (returned (ok true), fs)
  written agent (returned (err e), fs) = (returned (wrap_err (write_failed agent) (err e)), fs)
  written agent (panicked, fs) = (panicked, fs)

  abbrev pub removed : JsonAgent → Result (Unit {0}) × Fs → Run (Result Bool) × Fs
  removed agent (ok _, fs) = (returned (ok true), fs)
  removed agent (err e, fs) =
      (returned (if is_not_exist e then ok false else wrap_err (remove_failed agent) (err e)), fs)

  abbrev pub json_op : JsonAgent → OpType → ConfigurationOp → FilePath → Fs → Run (Result Bool) × Fs
  json_op agent create op path fs = written agent (write_config_file agent path op fs)
  json_op agent modify op path fs = written agent (write_config_file agent path op fs)
  json_op agent OpType.remove op path fs = removed agent (remove path fs)
  json_op agent (unknown_op _) op path fs = (returned (ok false), fs)

  unfoldable pub handle_json_op :
      JsonAgent → FilePath → ConfigurationOp → Fs → Run (Result Bool) × Fs
  unfolding write_config_file config_instance_path
  handle_json_op agent configs op fs =
      json_op agent op.op_type op (config_instance_path configs op.id ".json") fs

  abbrev pub in_configs_dir :
      JsonAgent → List ConfigurationOp → Result FilePath × Fs → Run (Result (Unit {0})) × Fs
  in_configs_dir agent ops (ok configs, fs) = apply_ops (handle_json_op agent configs) 0 ops fs
  in_configs_dir agent ops (err e, fs) = (returned (err e), fs)

  unfoldable pub process_config :
      JsonAgent → FilePath → List ConfigurationOp → Fs → Run (Result (Unit {0})) × Fs
  unfolding handle_json_op
  process_config agent base ops fs = in_configs_dir agent ops (ensure_configs_dir base fs)
