-- ===== src/Agents/Restarting.antt =====
-- agents/pkgagent.go and agents/oracle.go: the processes of the agents that are restarted to read
-- a new configuration.
use salus_telemetry_envoy.Common.{nat_eq, string_eq, texts_eq, if◌then◌else◌, Bool, true, not}
use salus_telemetry_envoy.Protocol.{packages, oracle}
use salus_telemetry_envoy.Paths.{FilePath}
use salus_telemetry_envoy.Agents.Files.{has_configs_and_exe_ready}
use salus_telemetry_envoy.Agents.Process.{Processes, Host, is_running, stop_and_forget, start_agent}
use salus_telemetry_envoy.Agents.Telegraf.{host_check}

abbrev pub started : Bool × Processes × Host → Processes × Host
started r = (r.1, r.2)

-- The package agent's start after a stop, or from nothing.
abbrev start_packages : Processes × Host → Processes × Host
start_packages s = started (start_agent packages "" s.0 s.1)

unfoldable pub ensure_packages_running : FilePath → Bool → Processes → Host → Processes × Host
ensure_packages_running base apply_configs p h =
    let r = host_check (has_configs_and_exe_ready base "salus-packages-agent" ".json") h in
    if not r.0
    then stop_and_forget p r.1
    else if is_running p
    then (if apply_configs then start_packages (stop_and_forget p r.1) else (p, r.1))
    else start_packages (p, r.1)

-- log.Fatal ends the Envoy when the oracle agent does not start.
abbrev fatal_unless_started : Bool × Processes × Host → Processes × Host
fatal_unless_started r = (r.1, if r.0 then r.2 else record (r.2) { fatal = true })

abbrev start_oracle : Processes × Host → Processes × Host
start_oracle s =
    fatal_unless_started (start_agent oracle "Succeeded in reconnecting to Envoy" s.0 s.1)

unfoldable pub ensure_oracle_running : Bool → Processes → Host → Processes × Host
ensure_oracle_running apply_configs p h =
    if is_running p
    then (if apply_configs then start_oracle (stop_and_forget p h) else (p, h))
    else start_oracle (p, h)
