-- ===== src/Agents/Running/Contract.antt =====
-- What the interface SpecificAgentRunner asks of EnsureRunningState, for the four runners.
use salus_telemetry_envoy.Common.{nat_eq, string_eq, texts_eq}
use salus_telemetry_envoy.Agents.Telegraf
use salus_telemetry_envoy.Agents.Telegraf.{handle_config_reload}
use salus_telemetry_envoy.Agents.Filebeat
