-- ===== src/Agents/System/Restart.antt =====
-- A restart that was due before a detach.
use salus_telemetry_envoy.Common.{nat_eq, string_eq, texts_eq, true, ◌≡◌, [], ℕ, some, get_elem?}
use salus_telemetry_envoy.Common.Assoc.{Assoc, lookup}
use salus_telemetry_envoy.Protocol.{AgentType, agent_eq}
use salus_telemetry_envoy.Agents.Process.{AgentRunningContext, Processes}
use salus_telemetry_envoy.Agents.Telegraf
use salus_telemetry_envoy.Agents.Runner.{Runner}
use salus_telemetry_envoy.Agents.Router.{Router}

-- A runner holds a live process.
pub record HoldsLive (p : Processes) : Type 0 where
  pub index : ℕ
  pub context : AgentRunningContext
  pub held : p.running ≡ some index
  pub there : get_elem? p.ctxs index ≡ some context
  pub live : context.alive ≡ true

-- A runner runs its agent without a configuration.
pub record RunsUnconfigured (m : Assoc AgentType Runner) (t : AgentType) : Type 0 where
  pub runner : Runner
  pub found : lookup t m ≡ some runner
  pub unconfigured : runner.configs ≡ []
  pub live : HoldsLive runner.procs
