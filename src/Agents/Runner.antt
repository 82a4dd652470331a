-- ===== src/Agents/Runner.antt =====
-- SpecificAgentRunner of agents/agents.go: the four runners behind one interface.
use salus_telemetry_envoy.Common.{nat_eq, string_eq, texts_eq, List, [], String, Bool}
use salus_telemetry_envoy.Common.Result.{Result, ok}
use salus_telemetry_envoy.Protocol.{ConfigurationOp}
use salus_telemetry_envoy.Paths.{FilePath}
use salus_telemetry_envoy.Os.{Fs}
use salus_telemetry_envoy.Agents.Convert.{Codec}
use salus_telemetry_envoy.Agents.Files.{Run, purge_configs_directory}
use salus_telemetry_envoy.Agents.Process.{Processes, Host, stop_and_forget}
use salus_telemetry_envoy.Agents.Telegraf
use salus_telemetry_envoy.Agents.Telegraf.{Configs}
use salus_telemetry_envoy.Agents.Filebeat
use salus_telemetry_envoy.Agents.JsonFiles
use salus_telemetry_envoy.Agents.JsonFiles.{packages_json, oracle_json}
use salus_telemetry_envoy.Agents.Restarting.{ensure_packages_running, ensure_oracle_running}

-- Which of the four types implements the interface.
pub data Kind : Type 0 where
  telegraf_runner filebeat_runner packages_runner oracle_runner : Kind

-- `configs` is telegraf's tomlConfigs; the other runners have their configuration in files.
pub record Runner : Type 0 where
  pub kind : Kind
  pub base_path : FilePath
  pub procs : Processes
  pub configs : Configs

abbrev pub on_procs : Runner → Processes × Host → Runner × Host
on_procs r s = (record r { procs = s.0 }, s.1)

abbrev pub ensure_kind : Kind → FilePath → Bool → Processes → Host → Processes × Host
ensure_kind telegraf_runner base a p h = Telegraf.ensure_running_state base a p h
ensure_kind filebeat_runner base a p h = Filebeat.ensure_running_state base a p h
ensure_kind packages_runner base a p h = ensure_packages_running base a p h
ensure_kind oracle_runner base a p h = ensure_oracle_running a p h

unfoldable pub ensure_running_state : Runner → Bool → Host → Runner × Host
ensure_running_state r apply_configs h =
    on_procs r (ensure_kind r.kind r.base_path apply_configs r.procs h)

-- Stop is the same in the four runners.
unfoldable pub stop_runner : Runner → Host → Runner × Host
stop_runner r h = on_procs r (stop_and_forget r.procs h)

-- PostInstall: telegraf only warns if the capabilities cannot be set.
unfoldable pub post_install : Kind → Result (Unit {0})
post_install k = ok tt

abbrev pub on_fs : {A : Type 0} → Runner → Host → A × Fs → A × Runner × Host
on_fs r h s = (s.0, r, record h { fs = s.1 })

abbrev pub purge_kind : Kind → Runner → Host → Result (Unit {0}) × Runner × Host
purge_kind telegraf_runner r h = (ok tt, record r { configs = [] }, h)
purge_kind _ r h = on_fs r h (purge_configs_directory r.base_path h.fs)

unfoldable pub purge_config : Runner → Host → Result (Unit {0}) × Runner × Host
purge_config r h = purge_kind r.kind r h

module _ (codec : Codec) (lumberjack_address : String) where
  abbrev pub process_kind :
      Kind → Runner → List ConfigurationOp → Host → Run (Result (Unit {0})) × Runner × Host
  process_kind telegraf_runner r ops h =
      let s = Telegraf.process_config codec ops r.configs in (s.0, record r { configs = s.1 }, h)
  process_kind filebeat_runner r ops h =
      on_fs r h (Filebeat.process_config codec r.base_path lumberjack_address ops h.fs)
  process_kind packages_runner r ops h =
      on_fs r h (JsonFiles.process_config codec packages_json r.base_path ops h.fs)
  process_kind oracle_runner r ops h =
      on_fs r h (JsonFiles.process_config codec oracle_json r.base_path ops h.fs)

  unfoldable pub process_config :
      Runner → List ConfigurationOp → Host → Run (Result (Unit {0})) × Runner × Host
  process_config r ops h = process_kind r.kind r ops h
