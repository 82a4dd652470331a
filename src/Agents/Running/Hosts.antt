-- ===== src/Agents/Running/Hosts.antt =====
-- The runners' EnsureRunningState functions, with what the operating system does later.
use salus_telemetry_envoy.Common.{
  nat_eq, string_eq, texts_eq, String, if◌then◌else◌, Bool, true, false, not,
}
use salus_telemetry_envoy.Paths.{FilePath}
use salus_telemetry_envoy.Protocol.{telegraf, filebeat, packages, oracle}
use salus_telemetry_envoy.Agents.Files.{has_configs_and_exe_ready}
use salus_telemetry_envoy.Agents.Process.{Processes, Host, is_running}
use salus_telemetry_envoy.Agents.Process.Tracked.{IsTracked}
use salus_telemetry_envoy.Agents.Process.Outcomes.{
  AllKind, AllStop-next, AllLaunch-next, stop-AllKind, stop_and_forget-AllKind, start_agent-AllKind,
}
use salus_telemetry_envoy.Agents.Running.{
  IsKind, telegraf-IsTracked, filebeat-IsTracked, packages-IsTracked, oracle-IsTracked,
}
use salus_telemetry_envoy.Agents.Telegraf
use salus_telemetry_envoy.Agents.Telegraf.{host_check, has_required_paths}
use salus_telemetry_envoy.Agents.Filebeat
use salus_telemetry_envoy.Agents.Restarting.{ensure_packages_running, ensure_oracle_running}
use salus_telemetry_envoy.Agents.Runner.{
  Kind, telegraf_runner, filebeat_runner, packages_runner, oracle_runner, ensure_kind,
}

AllKind-IsKind : {h : Host} → AllKind h → IsKind h
AllKind-IsKind {h} k = record {
  launches = AllLaunch-next h.launches k.launches;
  stops = AllStop-next h.stops k.stops;
}

-- What both branches of a test give the host.
if-second :
    {A : Type 0} (b : Bool) (x y : A × Host)
    → AllKind x.1
    → AllKind y.1
    → AllKind (if b then x else y).1
if-second true x y px py = px
if-second false x y px py = py

-- A check of the files.
pub checked-AllKind : {h : Host} (fs : _) → AllKind h → AllKind (record h { fs = fs })
checked-AllKind fs k = record { launches = k.launches; stops = k.stops }

fatal-AllKind :
    {h : Host} (b : Bool) → AllKind h → AllKind (if b then h else record h { fatal = true })
fatal-AllKind true k = k
fatal-AllKind false k = record { launches = k.launches; stops = k.stops }

telegraf-AllKind :
    (base : FilePath) (apply_configs : Bool) (p : Processes) (h : Host)
    → AllKind h
    → AllKind (Telegraf.ensure_running_state base apply_configs p h).1
unfolding Telegraf.ensure_running_state
telegraf-AllKind base apply_configs p h k =
    let c = checked-AllKind (has_required_paths base h.fs).1 k in
    if-second (not (has_required_paths base h.fs).0) _ _ (stop-AllKind p _ c)
      (if-second (is_running p) _ _ c (start_agent-AllKind telegraf _ p _ c))

filebeat-AllKind :
    (base : FilePath) (apply_configs : Bool) (p : Processes) (h : Host)
    → AllKind h
    → AllKind (Filebeat.ensure_running_state base apply_configs p h).1
unfolding Filebeat.ensure_running_state
filebeat-AllKind base apply_configs p h k =
    let c = checked-AllKind (has_configs_and_exe_ready base "filebeat" ".yml" h.fs).1 k in
    if-second (not (has_configs_and_exe_ready base "filebeat" ".yml" h.fs).0) _ _
      (stop-AllKind p _ c) (if-second (is_running p) _ _ c (start_agent-AllKind filebeat "" p _ c))

packages-AllKind :
    (base : FilePath) (apply_configs : Bool) (p : Processes) (h : Host)
    → AllKind h
    → AllKind (ensure_packages_running base apply_configs p h).1
unfolding ensure_packages_running
packages-AllKind base apply_configs p h k =
    let c =
      checked-AllKind (has_configs_and_exe_ready base "salus-packages-agent" ".json" h.fs).1 k in
    if-second (not (has_configs_and_exe_ready base "salus-packages-agent" ".json" h.fs).0) _ _
      (stop_and_forget-AllKind p _ c)
      (if-second (is_running p) _ _
        (if-second apply_configs _ _
          (start_agent-AllKind packages "" _ _ (stop_and_forget-AllKind p _ c)) c)
        (start_agent-AllKind packages "" p _ c))

abbrev phrase : String
phrase = "Succeeded in reconnecting to Envoy"

oracle-AllKind :
    (apply_configs : Bool) (p : Processes) (h : Host)
    → AllKind h
    → AllKind (ensure_oracle_running apply_configs p h).1
unfolding ensure_oracle_running
oracle-AllKind apply_configs p h k =
    if-second (is_running p) _ _
      (if-second apply_configs _ _
        (fatal-AllKind _ (start_agent-AllKind oracle phrase _ _ (stop_and_forget-AllKind p h k))) k)
      (fatal-AllKind _ (start_agent-AllKind oracle phrase p h k))

pub ensure_kind-IsTracked :
    (kind : Kind) (base : FilePath) (apply_configs : Bool) (p : Processes) (h : Host)
    → IsTracked p
    → AllKind h
    → IsTracked (ensure_kind kind base apply_configs p h).0
ensure_kind-IsTracked telegraf_runner base a p h t k =
    telegraf-IsTracked base a p h t (AllKind-IsKind k)
ensure_kind-IsTracked filebeat_runner base a p h t k =
    filebeat-IsTracked base a p h t (AllKind-IsKind k)
ensure_kind-IsTracked packages_runner base a p h t k =
    packages-IsTracked base a p h t (AllKind-IsKind k)
ensure_kind-IsTracked oracle_runner base a p h t k = oracle-IsTracked a p h t (AllKind-IsKind k)

pub ensure_kind-AllKind :
    (kind : Kind) (base : FilePath) (apply_configs : Bool) (p : Processes) (h : Host)
    → AllKind h
    → AllKind (ensure_kind kind base apply_configs p h).1
ensure_kind-AllKind telegraf_runner base = telegraf-AllKind base
ensure_kind-AllKind filebeat_runner base = filebeat-AllKind base
ensure_kind-AllKind packages_runner base = packages-AllKind base
ensure_kind-AllKind oracle_runner base = oracle-AllKind
