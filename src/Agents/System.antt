-- ===== src/Agents/System.antt =====
-- The package agents as a whole: what the router, the goroutines that wait for the processes and
-- the timers of the restarts do to the runners, one event after the other.
pub mod Sound
pub mod Tracked
pub mod Restart
pub mod Orphan
pub mod Leak
use salus_telemetry_envoy.Common.{
  List, [], ◌∷◌, String, if◌then◌else◌, Bool, false, ◌&&◌, ℕ, zero, suc, Option, none, some,
  get_elem?,
}
use salus_telemetry_envoy.Common.Assoc.{Assoc, lookup}
use salus_telemetry_envoy.Protocol.{
  AgentType, agent_eq, EnvoyInstructionInstall, EnvoyInstructionConfigure,
}
use salus_telemetry_envoy.Agents.Convert.{Codec}
use salus_telemetry_envoy.Agents.Files.{Run, returned, panicked, Download}
use salus_telemetry_envoy.Agents.Process.{
  AgentRunningContext, Processes, Host, wait_on_agent_command,
}
use salus_telemetry_envoy.Agents.Runner.{Runner, on_procs, ensure_running_state}
use salus_telemetry_envoy.Agents.Router.{
  Router, keep_runner, process_install, process_configure, on_detach, stop_all,
}

pub data Event : Type 0 where
  -- an instruction reaches the router
  installs : EnvoyInstructionInstall → Event
  configures : EnvoyInstructionConfigure → Event
  -- the router takes a signal of detachChan, or the end of the application
  detaches done : Event
  -- cmd.Wait of WaitOnAgentCommand returns for a context of an agent's runner
  exits : AgentType → ℕ → Event
  -- the timer of a restart that is due runs out
  restarts : AgentType → Event

-- WaitOnAgentCommand waits for the context and has not yet reaped its process.
abbrev pub is_waited : Option AgentRunningContext → Bool
is_waited none = false
is_waited (some c) = c.watched && c.has_cmd

unfoldable pub on_exit : ℕ → Processes → Processes
on_exit i p = if is_waited (get_elem? p.ctxs i) then wait_on_agent_command i p else p

-- The function of time.AfterFunc, for one of the restarts that are due.
abbrev pub restart_from : ℕ → Runner → Host → Runner × Host
restart_from zero r h = (r, h)
restart_from (suc n) r h =
    ensure_running_state (record r { procs = record (r.procs) { restarts = n } }) false h

unfoldable pub on_restart : Runner → Host → Runner × Host
on_restart r h = restart_from r.procs.restarts r h

abbrev pub at_runner : AgentType → Option Runner → (Runner → Host → Runner × Host) → Router → Router
at_runner t none f ar = ar
at_runner t (some r) f ar = keep_runner ar t (f r ar.host)

module _ (agent_name : AgentType → String) (download : String → Download) (codec : Codec)
    (lumberjack_address : String) where
  unfoldable pub step : Event → Router → Run (Unit {0}) × Router
  unfolding on_exit on_restart
  step (installs i) ar = process_install agent_name download i ar
  step (configures c) ar = process_configure codec lumberjack_address c ar
  step detaches ar = (returned tt, on_detach ar)
  step done ar = (returned tt, stop_all ar)
  step (exits t i) ar =
      (returned tt, at_runner t (lookup t ar.runners) (λ r h. on_procs r (on_exit i r.procs, h)) ar)
  step (restarts t) ar = (returned tt, at_runner t (lookup t ar.runners) on_restart ar)

  abbrev pub then_run : Run (Unit {0}) × Router → (Router → Router) → Router
  then_run (returned _, ar) k = k ar
  then_run (panicked, ar) k = ar

  -- The router after a sequence of events; a panic ends the process.
  unfoldable pub run : List Event → Router → Router
  unfolding step
  run [] ar = ar
  run (e ∷ es) ar = then_run (step e ar) (run es)
