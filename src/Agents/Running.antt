-- ===== src/Agents/Running.antt =====
-- The runners' EnsureRunningState functions keep at most one process, and know it.
pub mod Hosts
pub mod Contract
pub mod Ensured
use salus_telemetry_envoy.Common.{
  String, if◌then◌else◌, Bool, true, false, arith, ◌≡◌, ◌≢◌, inl, inr, refl, not, Bool-cases,
}
use salus_telemetry_envoy.Paths.{FilePath}
use salus_telemetry_envoy.Protocol.{AgentType, telegraf, filebeat, packages, oracle}
use salus_telemetry_envoy.Agents.Files.{has_configs_and_exe_ready}
use salus_telemetry_envoy.Agents.Process.{
  AgentRunningContext, Processes, Host, leaves_process, survives, next_launch, next_stop,
  is_running, stop_and_forget, start_agent, start_agent_command, create_context,
}
use salus_telemetry_envoy.Agents.Process.Tracked.{
  IsTracked, NoLive-IsTracked, not_running-NoLive, stop-NoLive, stop_and_forget-NoLive,
  start_agent-IsTracked,
}
use salus_telemetry_envoy.Agents.Telegraf
use salus_telemetry_envoy.Agents.Telegraf.{host_check, has_required_paths}
use salus_telemetry_envoy.Agents.Filebeat
use salus_telemetry_envoy.Agents.Restarting.{ensure_packages_running, ensure_oracle_running}

-- The next start does not fail with its command alive, and the next KILL works.
pub record IsKind (h : Host) : Type 0 where
  pub launches : leaves_process (next_launch h.launches) ≡ false
  pub stops : next_stop h.stops ≢ survives

-- What both branches of a test give.
pub if-first {ℓ} :
    {A B : Type 0} (P : A → Type ℓ) (b : Bool) (x y : A × B)
    → (b ≡ true → P x.0)
    → (b ≡ false → P y.0)
    → P (if b then x else y).0
if-first P true x y px py = px refl
if-first P false x y px py = py refl

-- A reload changes nothing that is tracked.
reload-IsTracked :
    {p : Processes} (b : Bool)
    → IsTracked p
    → IsTracked (if b then Telegraf.handle_config_reload p else p)
reload-IsTracked {p} true t = elim (Bool-cases (is_running p)) [
  | inl e ↦ rw e (record { at = λ i c g a. ground (arith, t.at i c g a) })
  | inr e ↦ rw e t
]
reload-IsTracked false t = t

launches-stop : (p : Processes) (h : Host) → (stop_and_forget p h).1.launches ≡ h.launches
unfolding stop_and_forget
launches-stop p h = ground arith

-- A stop and a start.
restart-IsTracked :
    (a : AgentType) (wait_for : String) (p : Processes) (h : Host)
    → IsTracked p
    → IsKind h
    → IsTracked (start_agent a wait_for (stop_and_forget p h).0 (stop_and_forget p h).1).1
restart-IsTracked a wait_for p h t k =
    start_agent-IsTracked a wait_for _ _ (stop_and_forget-NoLive p h t k.stops)
      (rw launches-stop k.launches)

-- EnsureRunningState of telegraf: if the only process alive is the one that the runner holds and
-- waits for, then this is so afterwards too, whether files are missing, a reload is asked for or
-- a process is started, unless a start can fail with its command alive or a KILL fails.
pub telegraf-IsTracked :
    (base : FilePath) (apply_configs : Bool) (p : Processes) (h : Host)
    → IsTracked p
    → IsKind h
    → IsTracked (Telegraf.ensure_running_state base apply_configs p h).0
unfolding Telegraf.ensure_running_state
telegraf-IsTracked base apply_configs p h t k =
    if-first IsTracked (not (has_required_paths base h.fs).0) _ _
      (λ _. NoLive-IsTracked (stop-NoLive p _ t k.stops))
      λ _.
        if-first IsTracked (is_running p) _ _ (λ _. reload-IsTracked apply_configs t)
          λ n. start_agent-IsTracked telegraf _ p _ (not_running-NoLive t n) k.launches

-- The same of filebeat.
pub filebeat-IsTracked :
    (base : FilePath) (apply_configs : Bool) (p : Processes) (h : Host)
    → IsTracked p
    → IsKind h
    → IsTracked (Filebeat.ensure_running_state base apply_configs p h).0
unfolding Filebeat.ensure_running_state
filebeat-IsTracked base apply_configs p h t k =
    if-first IsTracked (not (has_configs_and_exe_ready base "filebeat" ".yml" h.fs).0) _ _
      (λ _. NoLive-IsTracked (stop-NoLive p _ t k.stops))
      λ _.
        if-first IsTracked (is_running p) _ _ (λ _. t)
          λ n. start_agent-IsTracked filebeat _ p _ (not_running-NoLive t n) k.launches

-- The same of the packages agent, which is stopped and started to apply configurations.
pub packages-IsTracked :
    (base : FilePath) (apply_configs : Bool) (p : Processes) (h : Host)
    → IsTracked p
    → IsKind h
    → IsTracked (ensure_packages_running base apply_configs p h).0
unfolding ensure_packages_running
packages-IsTracked base apply_configs p h t k =
    if-first IsTracked (not (has_configs_and_exe_ready base "salus-packages-agent" ".json" h.fs).0)
      _ _ (λ _. NoLive-IsTracked (stop_and_forget-NoLive p _ t k.stops))
      λ _.
        if-first IsTracked (is_running p) _ _
          (λ _.
            if-first IsTracked apply_configs _ _
              (λ _.
                restart-IsTracked packages "" p _ t
                  (record { launches = k.launches; stops = k.stops }))
              λ _. t)
          λ n. start_agent-IsTracked packages _ p _ (not_running-NoLive t n) k.launches

-- The same of the oracle agent.
pub oracle-IsTracked :
    (apply_configs : Bool) (p : Processes) (h : Host)
    → IsTracked p
    → IsKind h
    → IsTracked (ensure_oracle_running apply_configs p h).0
unfolding ensure_oracle_running
oracle-IsTracked apply_configs p h t k =
    if-first IsTracked (is_running p) _ _
      (λ _. if-first IsTracked apply_configs _ _ (λ _. restart-IsTracked oracle _ p h t k) λ _. t)
      λ n. start_agent-IsTracked oracle _ p _ (not_running-NoLive t n) k.launches
