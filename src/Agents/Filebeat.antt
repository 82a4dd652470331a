-- ===== src/Agents/Filebeat.antt =====
-- agents/filebeat.go: the configuration and the process of filebeat.
use salus_telemetry_envoy.Common.{
  nat_eq, string_eq, texts_eq, ◌++◌, List, String, if◌then◌else◌, Bool, false, not, ℕ,
}
use Prim.Native.String.{◌++◌ as ◌++s◌}
use salus_telemetry_envoy.Common.Bytes
use salus_telemetry_envoy.Common.Result.{Result, ok, err, wrap_err}
use salus_telemetry_envoy.Protocol.{ConfigurationOp, filebeat}
use salus_telemetry_envoy.Paths.{FilePath, join}
use salus_telemetry_envoy.Os.{Fs}
use salus_telemetry_envoy.Os.Write.{Io, ◌>>=◌, open_file, write_bytes}
use salus_telemetry_envoy.Agents.Convert.{Codec}
use salus_telemetry_envoy.Agents.Files.{
  Run, returned, file_exists, ensure_configs_dir, has_configs_and_exe_ready,
  handle_content_configuration_op, conversion_none, configs_dir_subpath,
}
use salus_telemetry_envoy.Agents.Operations.{apply_ops}
use salus_telemetry_envoy.Agents.Process.{Processes, Host, is_running, stop, start_agent}
use salus_telemetry_envoy.Agents.Telegraf.{host_check}

-- The main configuration that the template gives for the ingestor's address.
unfoldable pub main_config : String → List ℕ
main_config address =
    Bytes.of "\nfilebeat.config.inputs:\n  enabled: true\n  path: "
    ++ (Bytes.of configs_dir_subpath
        ++ (Bytes.of
              "/*.yml\n  reload.enabled: true\n  reload.period: 5s\noutput.logstash:\n  hosts: [\""
            ++ (Bytes.of address ++ Bytes.of "\"]\n")))

unfoldable pub create_main_config : FilePath → String → Io (Unit {0})
unfolding main_config
create_main_config path address = do
  old ← open_file false path
  write_bytes path (main_config address) old

unfoldable pub config_instance_path : FilePath → String → String → FilePath
config_instance_path configs id ending = join configs (id ++s ending)

module _ (codec : Codec) where
  unfoldable pub filebeat_op : FilePath → ConfigurationOp → Fs → Run (Result Bool) × Fs
  unfolding config_instance_path
  filebeat_op configs op fs =
      let r =
        handle_content_configuration_op codec op (config_instance_path configs op.id ".yml")
          conversion_none fs in
      (returned (ok r.0), r.1)

  -- the main configuration, if it is not there yet
  unfoldable pub ensure_main_config : FilePath → String → Io (Unit {0})
  unfolding create_main_config
  ensure_main_config base address fs =
      let r = file_exists (join base "filebeat.yml") fs in
      if r.0 then (ok tt, r.1) else create_main_config (join base "filebeat.yml") address r.1

  abbrev pub with_main_config :
      FilePath → List ConfigurationOp → Result (Unit {0}) × Fs → Run (Result (Unit {0})) × Fs
  with_main_config configs ops (ok _, fs) = apply_ops (filebeat_op configs) 0 ops fs
  with_main_config configs ops (err e, fs) =
      (returned (wrap_err "failed to create main filebeat config" (err e)), fs)

  abbrev pub with_configs_dir :
      FilePath → String → List ConfigurationOp → Result FilePath × Fs → Run (Result (Unit {0})) × Fs
  with_configs_dir base address ops (ok configs, fs) =
      with_main_config configs ops (ensure_main_config base address fs)
  with_configs_dir base address ops (err e, fs) = (returned (err e), fs)

  unfoldable pub process_config :
      FilePath → String → List ConfigurationOp → Fs → Run (Result (Unit {0})) × Fs
  unfolding filebeat_op ensure_main_config
  process_config base address ops fs =
      with_configs_dir base address ops (ensure_configs_dir base fs)

unfoldable pub ensure_running_state : FilePath → Bool → Processes → Host → Processes × Host
ensure_running_state base apply_configs p h =
    let r = host_check (has_configs_and_exe_ready base "filebeat" ".yml") h in
    if not r.0
    then stop p r.1
    else if is_running p
    then (p, r.1)
    else let s = start_agent filebeat "" p r.1 in (s.1, s.2)
