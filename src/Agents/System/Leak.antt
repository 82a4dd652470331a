-- ===== src/Agents/System/Leak.antt =====
-- A command whose start failed while it lives on: nothing that its runner does later reaches it.
use salus_telemetry_envoy.Common.{
  nat_eq, string_eq, texts_eq, List, [], ◌∷◌, Bool, true, false, ◌≡◌, ◌≢◌, refl, ℕ, zero, suc, some,
  length, get_elem?-length, String,
}
use salus_telemetry_envoy.Protocol.{AgentType, telegraf, filebeat, packages, oracle}
use salus_telemetry_envoy.Paths.{FilePath}
use salus_telemetry_envoy.Agents.Process.{
  Processes, Host, Launch, launched, deadline, output_closed, phrase_seen, exited, pipe_failed,
  exec_failed, leaves_process, next_launch, is_running, start_agent, start_agent_command,
  create_context,
}
use salus_telemetry_envoy.Agents.Telegraf
use salus_telemetry_envoy.Agents.Telegraf.{has_required_paths, handle_config_reload, host_check}
use salus_telemetry_envoy.Agents.Filebeat
use salus_telemetry_envoy.Agents.Restarting.{ensure_packages_running, ensure_oracle_running}
use salus_telemetry_envoy.Agents.Runner.{
  Kind, telegraf_runner, filebeat_runner, packages_runner, oracle_runner, Runner,
  ensure_running_state, ensure_kind, stop_runner, on_procs,
}
use salus_telemetry_envoy.Agents.Running.Ensured.{is_ready, start_works, can_start}
use salus_telemetry_envoy.Agents.System.{on_exit, restart_from, on_restart}
use salus_telemetry_envoy.Agents.System.Orphan.{
  IsOrphan, ensure_kind-IsOrphan, stop_and_forget-IsOrphan, on_exit-IsOrphan,
}

-- What a runner meets: a call of EnsureRunningState or of Stop, the end of a process that is waited
-- for, and the timer of a restart.
pub data Later : Type 0 where
  ensures : Bool → Later
  stops : Later
  exits : ℕ → Later
  restarts : Later

abbrev pub meets : Later → Runner → Host → Runner × Host
unfolding ensure_running_state stop_runner on_exit on_restart
meets (ensures a) r h = ensure_running_state r a h
meets stops r h = stop_runner r h
meets (exits j) r h = on_procs r (on_exit j r.procs, h)
meets restarts r h = on_restart r h

unfoldable pub meets_all : List Later → Runner → Host → Runner × Host
meets_all [] r h = (r, h)
meets_all (l ∷ rest) r h = let s = meets l r h in meets_all rest s.0 s.1

restart_from-IsOrphan :
    (i n : ℕ) (r : Runner) (h : Host) → IsOrphan i r.procs → IsOrphan i (restart_from n r h).0.procs
unfolding ensure_running_state
restart_from-IsOrphan i zero r h o = o
restart_from-IsOrphan i (suc n) r h o =
    ensure_kind-IsOrphan i r.kind r.base_path false (record (r.procs) { restarts = n }) h
      (record {
        context = o.context;
        there = o.there;
        live = o.live;
        unwatched = o.unwatched;
        unheld = o.unheld;
      })

meets-IsOrphan :
    (i : ℕ) (l : Later) (r : Runner) (h : Host)
    → IsOrphan i r.procs
    → IsOrphan i (meets l r h).0.procs
unfolding meets ensure_running_state stop_runner on_restart
meets-IsOrphan i (ensures a) r h o = ensure_kind-IsOrphan i r.kind r.base_path a r.procs h o
meets-IsOrphan i stops r h o = stop_and_forget-IsOrphan i r.procs h o
meets-IsOrphan i (exits j) r h o = on_exit-IsOrphan i j r.procs o
meets-IsOrphan i restarts r h o = restart_from-IsOrphan i r.procs.restarts r h o

meets_all-IsOrphan :
    (i : ℕ) (ls : List Later) (r : Runner) (h : Host)
    → IsOrphan i r.procs
    → IsOrphan i (meets_all ls r h).0.procs
unfolding meets_all
meets_all-IsOrphan i [] r h o = o
meets_all-IsOrphan i (l ∷ rest) r h o = meets_all-IsOrphan i rest _ _ (meets-IsOrphan i l r h o)

-- A start that fails and leaves its process.
failed_start-IsOrphan :
    (t : AgentType) (w : String) (p : Processes) (h : Host) (l : Launch)
    → next_launch h.launches ≡ l
    → leaves_process l ≡ true
    → start_works w l ≡ false
    → p.running ≢ some (length p.ctxs)
    → IsOrphan (length p.ctxs) (start_agent t w p h).1
unfolding start_agent start_agent_command create_context
failed_start-IsOrphan t w p h pipe_failed e f s n = absurd (cc f)
failed_start-IsOrphan t w p h exec_failed e f s n = absurd (cc f)
failed_start-IsOrphan t w p h (launched phrase_seen) e f s n = absurd (cc f)
failed_start-IsOrphan t w p h (launched exited) e f s n = absurd (cc f)
failed_start-IsOrphan t w p h (launched deadline) e f s n = rw e (record {
  context = _;
  there = get_elem?-length p.ctxs _;
  live = refl;
  unwatched = refl;
  unheld = n;
})
failed_start-IsOrphan t w p h (launched output_closed) e f s n =
    rw (e, s)
      (record {
        context = _;
        there = get_elem?-length p.ctxs _;
        live = refl;
        unwatched = refl;
        unheld = n;
      })

failed_ensure-IsOrphan :
    (kind : Kind) (base : FilePath) (a : Bool) (p : Processes) (h : Host)
    → is_ready kind base h.fs ≡ true
    → is_running p ≡ false
    → leaves_process (next_launch h.launches) ≡ true
    → can_start kind h ≡ false
    → p.running ≢ some (length p.ctxs)
    → IsOrphan (length p.ctxs) (ensure_kind kind base a p h).0
unfolding Telegraf.ensure_running_state Filebeat.ensure_running_state ensure_packages_running
    ensure_oracle_running
failed_ensure-IsOrphan telegraf_runner base a p h d n l s u =
    rw (d, n) (failed_start-IsOrphan telegraf _ p _ _ refl l s u)
failed_ensure-IsOrphan filebeat_runner base a p h d n l s u =
    rw (d, n) (failed_start-IsOrphan filebeat _ p _ _ refl l s u)
failed_ensure-IsOrphan packages_runner base a p h d n l s u =
    rw (d, n) (failed_start-IsOrphan packages _ p _ _ refl l s u)
failed_ensure-IsOrphan oracle_runner base a p h d n l s u =
    rw n (failed_start-IsOrphan oracle _ p _ _ refl l s u)

-- If an agent is ready and not running, and EnsureRunningState starts it, sees no phrase but the
-- deadline or the end of a pipe first, and the command lives on, then that command is alive, not
-- held by its runner and waited for by nobody, whatever calls of EnsureRunningState and Stop, ends
-- of other processes and restarts come later. The runner's pointer is within its contexts before.
pub failed_start_leaks :
    (r : Runner) (a : Bool) (h : Host) (later : List Later)
    → is_ready r.kind r.base_path h.fs ≡ true
    → is_running r.procs ≡ false
    → leaves_process (next_launch h.launches) ≡ true
    → can_start r.kind h ≡ false
    → r.procs.running ≢ some (length r.procs.ctxs)
    → IsOrphan
        (length r.procs.ctxs)
        (meets_all later (ensure_running_state r a h).0 (ensure_running_state r a h).1).0.procs
unfolding ensure_running_state
failed_start_leaks r a h later d n l s u =
    meets_all-IsOrphan _ later _ _ (failed_ensure-IsOrphan r.kind r.base_path a r.procs h d n l s u)
