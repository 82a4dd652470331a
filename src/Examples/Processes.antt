-- ===== src/Examples/Processes.antt =====
-- The theorems on processes and the router at concrete inputs.
use salus_telemetry_envoy.Common.{
  nat_eq, string_eq, texts_eq, [], ◌∷◌, true, false, arith, ◌≡◌, refl, ℕ, zero, suc, none, some,
  get_elem?,
}
use salus_telemetry_envoy.Common.Assoc.{lookup}
use salus_telemetry_envoy.Common.Result.{ok}
use salus_telemetry_envoy.Paths.{join}
use salus_telemetry_envoy.Os.{stat, follow, lstat, readlink, symlink}
use salus_telemetry_envoy.Os.Write.{remove, remove_all}
use salus_telemetry_envoy.Common.Assoc.{erase}
use salus_telemetry_envoy.Agents.Files.{full_exe_path, purge_configs_directory}
use salus_telemetry_envoy.Agents.Runner.{purge_config, stop_runner}
use salus_telemetry_envoy.Agents.Process.{stop_and_forget}
use salus_telemetry_envoy.Protocol.{telegraf, filebeat}
use salus_telemetry_envoy.Agents.Files.{current_ver_link, file_exists}
use salus_telemetry_envoy.Agents.Process.{AgentRunningContext, Processes, Host}
use salus_telemetry_envoy.Agents.Process.Tracked.{IsTracked, IsHeld}
use salus_telemetry_envoy.Agents.Process.{launched, deadline, is_running}
use salus_telemetry_envoy.Agents.Runner.{ensure_running_state}
use salus_telemetry_envoy.Agents.System.Orphan.{IsOrphan}
use salus_telemetry_envoy.Agents.System.Leak.{
  meets_all, ensures, stops, exits, restarts, failed_start_leaks,
}
use salus_telemetry_envoy.Agents.Telegraf.{has_required_paths}
use salus_telemetry_envoy.Agents.Runner.{Runner, telegraf_runner, filebeat_runner}
use salus_telemetry_envoy.Agents.Router.{
  Router, ensure_current_symlink, purge_agent_configs, on_detach,
}
use salus_telemetry_envoy.Agents.Router.Link.{IsCurrent, ensure_current_symlink-IsCurrent}
use salus_telemetry_envoy.Agents.Router.Purged.{AllPurged, purge_agent_configs-AllPurged}
use salus_telemetry_envoy.Agents.Router.Detach.{AllRunners, IsIdle, on_detach-IsIdle}
use salus_telemetry_envoy.Examples.Data.{base, filebeat_base, installed}

abbrev pub host : Host
host = record { fs = installed; launches = []; stops = []; fatal = false }

abbrev pub idle : Processes
idle = record { running = none; ctxs = []; restarts = 0; reloads = 0 }

abbrev live_ctx : AgentRunningContext
live_ctx = record {
  agent_type = telegraf;
  has_cmd = true;
  alive = true;
  stopping = false;
  watched = true;
}

abbrev pub busy : Processes
busy = record { running = some 0; ctxs = live_ctx ∷ []; restarts = 0; reloads = 0 }

pub busy-IsTracked : IsTracked busy
busy-IsTracked = record { at = at_index }
  where
    at_index :
        (i : ℕ) (c : AgentRunningContext)
        → get_elem? (live_ctx ∷ []) i ≡ some c
        → c.alive ≡ true
        → IsHeld busy i c
    at_index zero c h a = ground arith
    at_index (suc i) c h a = absurd (cc h)

pub installed_is_ready : (has_required_paths base installed).0 ≡ true
unfolding has_required_paths file_exists full_exe_path stat follow join lookup
installed_is_ready = refl

abbrev pub telegraf_runner_1 : Runner
telegraf_runner_1 = record {
  kind = telegraf_runner;
  base_path = base;
  procs = busy;
  configs = ("m1", 1 ∷ []) ∷ [];
}

abbrev pub filebeat_runner_1 : Runner
filebeat_runner_1 = record {
  kind = filebeat_runner;
  base_path = filebeat_base;
  procs = idle;
  configs = [];
}

abbrev pub router : Router
router = record {
  data_path = "data" ∷ [];
  runners = (telegraf, telegraf_runner_1) ∷ (filebeat, filebeat_runner_1) ∷ [];
  host = host;
}

pub idle-IsTracked : IsTracked idle
idle-IsTracked = record { at = λ i c h a. absurd (cc h) }

on_detach-IsIdle_example : AllRunners IsIdle (on_detach router).runners
on_detach-IsIdle_example = on_detach-IsIdle router (busy-IsTracked, (idle-IsTracked, tt)) tt

router_purges : (purge_agent_configs router).0 ≡ ok tt
unfolding purge_agent_configs purge_config purge_configs_directory remove_all join lookup
router_purges = refl

purge_agent_configs-AllPurged_example :
    AllPurged (purge_agent_configs router).1.host.fs (purge_agent_configs router).1.runners
purge_agent_configs-AllPurged_example = purge_agent_configs-AllPurged router router_purges

link_adjusts : (ensure_current_symlink base "1.1" telegraf_runner_1 host).0 ≡ ok tt
unfolding ensure_current_symlink lstat readlink remove symlink stop_runner stop_and_forget join
    lookup erase
link_adjusts = refl

ensure_current_symlink-IsCurrent_example :
    IsCurrent
      (join base current_ver_link)
      "1.1"
      telegraf_runner_1
      host
      (ensure_current_symlink base "1.1" telegraf_runner_1 host)
ensure_current_symlink-IsCurrent_example =
    ensure_current_symlink-IsCurrent base "1.1" telegraf_runner_1 host link_adjusts

-- The next command shows no phrase before the deadline.
abbrev slow_host : Host
slow_host = record host { launches = launched deadline ∷ [] }

abbrev idle_runner : Runner
idle_runner = record telegraf_runner_1 { procs = idle }

failed_start_leaks_example :
    IsOrphan 0
      (meets_all
        (ensures false ∷ stops ∷ exits 1 ∷ restarts ∷ [])
        (ensure_running_state idle_runner false slow_host).0
        (ensure_running_state idle_runner false slow_host).1).0.procs
failed_start_leaks_example =
    failed_start_leaks idle_runner false slow_host (ensures false ∷ stops ∷ exits 1 ∷ restarts ∷ [])
      installed_is_ready not_running refl refl λ e. cc e
  where
    not_running : is_running idle_runner.procs ≡ false
    not_running = unfold is_running in refl
