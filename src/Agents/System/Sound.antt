-- ===== src/Agents/System/Sound.antt =====
-- Whatever a runner is asked to do, its live process stays tracked.
use salus_telemetry_envoy.Common.{
  ◌==◌, nat_eq, string_eq, texts_eq, List, String, if◌then◌else◌, Bool, true, false, inl, inr, ℕ,
  zero, suc, get_elem?, Bool-cases,
}
use salus_telemetry_envoy.Common.Result.{Result, ok, err, is_not_exist}
use salus_telemetry_envoy.Protocol.{EnvoyInstructionInstall, AgentType, ConfigurationOp}
use salus_telemetry_envoy.Paths.{FilePath, join}
use salus_telemetry_envoy.Os.{Fs, Node, lstat, readlink}
use salus_telemetry_envoy.Os.Write.{remove}
use salus_telemetry_envoy.Agents.Convert.{Codec}
use salus_telemetry_envoy.Agents.Files.{
  Run, returned, panicked, Download, file_exists, download_extract_tar_gz, current_ver_link,
}
use salus_telemetry_envoy.Agents.Process.{Processes, Host}
use salus_telemetry_envoy.Agents.Process.Tracked.{
  IsTracked, NoLive-IsTracked, stop_and_forget-NoLive, wait_on_agent_command-IsTracked,
}
use salus_telemetry_envoy.Agents.Process.Outcomes.{AllKind, AllStop-next, stop_and_forget-AllKind}
use salus_telemetry_envoy.Agents.Running.Hosts.{
  checked-AllKind, ensure_kind-IsTracked, ensure_kind-AllKind,
}
use salus_telemetry_envoy.Agents.Runner.{
  Kind, telegraf_runner, filebeat_runner, packages_runner, oracle_runner, Runner,
  ensure_running_state, stop_runner, process_config, process_kind, post_install,
}
use salus_telemetry_envoy.Agents.Router.{
  Installing, on_host, link_anew, after_removal, after_readlink, after_lstat,
  ensure_current_symlink, after_link, activate, after_post_install, after_download, after_mkdir,
  install_runner, after_config,
}
use salus_telemetry_envoy.Agents.System.{on_exit, restart_from, on_restart, is_waited}

pub record IsSound (r : Runner) (h : Host) : Type 0 where
  pub tracked : IsTracked r.procs
  pub kind : AllKind h

-- A check or a change of the files.
IsSound-fs : {r : Runner} {h : Host} (fs : Fs) → IsSound r h → IsSound r (record h { fs = fs })
IsSound-fs fs s = record { tracked = s.tracked; kind = checked-AllKind fs s.kind }

pub stop_runner-IsSound :
    (r : Runner) (h : Host) → IsSound r h → IsSound (stop_runner r h).0 (stop_runner r h).1
unfolding stop_runner
stop_runner-IsSound r h s = record {
  tracked =
      NoLive-IsTracked
        (stop_and_forget-NoLive r.procs h s.tracked (AllStop-next h.stops s.kind.stops));
  kind = stop_and_forget-AllKind r.procs h s.kind;
}

pub ensure_running_state-IsSound :
    (r : Runner) (apply_configs : Bool) (h : Host)
    → IsSound r h
    → IsSound (ensure_running_state r apply_configs h).0 (ensure_running_state r apply_configs h).1
unfolding ensure_running_state
ensure_running_state-IsSound r a h s = record {
  tracked = ensure_kind-IsTracked r.kind r.base_path a r.procs h s.tracked s.kind;
  kind = ensure_kind-AllKind r.kind r.base_path a r.procs h s.kind;
}

link_anew-IsSound :
    (path : FilePath) (version : String) (r : Runner) (h : Host)
    → IsSound r h
    → IsSound (link_anew path version r h).1 (link_anew path version r h).2
link_anew-IsSound path version r h s = IsSound-fs _ (stop_runner-IsSound r h s)

after_removal-IsSound :
    (path : FilePath) (version : String) (r : Runner) (x : Result (Unit {0}) × Host)
    → IsSound r x.1
    → IsSound (after_removal path version r x).1 (after_removal path version r x).2
after_removal-IsSound path version r (ok u, h) s = link_anew-IsSound path version r h s
after_removal-IsSound path version r (err e, h) s = s

if-IsSound :
    (b : Bool) (x y : Installing)
    → IsSound x.1 x.2
    → IsSound y.1 y.2
    → IsSound (if b then x else y).1 (if b then x else y).2
if-IsSound true x y p q = p
if-IsSound false x y p q = q

after_readlink-IsSound :
    (path : FilePath) (version : String) (r : Runner) (x : Result String × Host)
    → IsSound r x.1
    → IsSound (after_readlink path version r x).1 (after_readlink path version r x).2
after_readlink-IsSound path version r (err e, h) s = s
after_readlink-IsSound path version r (ok target, h) s =
    if-IsSound (target == version) _ _ s
      (after_removal-IsSound path version r (on_host h (remove path h.fs)) (IsSound-fs _ s))

after_lstat-IsSound :
    (path : FilePath) (version : String) (r : Runner) (x : Result Node × Host)
    → IsSound r x.1
    → IsSound (after_lstat path version r x).1 (after_lstat path version r x).2
after_lstat-IsSound path version r (err e, h) s =
    if-IsSound (is_not_exist e) _ _ (link_anew-IsSound path version r h s) s
after_lstat-IsSound path version r (ok n, h) s =
    after_readlink-IsSound path version r (on_host h (readlink path h.fs)) (IsSound-fs _ s)

after_link-IsSound :
    (agent_name : AgentType → String) (download : String → Download) (x : Installing)
    → IsSound x.1 x.2
    → IsSound (after_link agent_name download x).0 (after_link agent_name download x).1
after_link-IsSound a d (ok u, r, h) s = ensure_running_state-IsSound r false h s
after_link-IsSound a d (err e, r, h) s = s

module _ (agent_name : AgentType → String) (download : String → Download) where
  activate-IsSound :
      (base : FilePath) (version : String) (r : Runner) (h : Host)
      → IsSound r h
      → IsSound
          (activate agent_name download base version r h).1
          (activate agent_name download base version r h).2
  unfolding ensure_current_symlink
  activate-IsSound base version r h s =
      after_link-IsSound agent_name download (ensure_current_symlink base version r h) (
        after_lstat-IsSound (join base current_ver_link) version r
          (on_host h (lstat (join base current_ver_link) h.fs)) (IsSound-fs _ s))

  after_post_install-IsSound :
      (base : FilePath) (version : String) (x : Result (Unit {0})) (r : Runner) (h : Host)
      → IsSound r h
      → IsSound
          (after_post_install agent_name download base version x r h).1
          (after_post_install agent_name download base version x r h).2
  after_post_install-IsSound base version (ok u) r h s = activate-IsSound base version r h s
  after_post_install-IsSound base version (err e) r h s = s

  after_download-IsSound :
      (base out : FilePath) (version : String) (r : Runner) (x : Run (Result (Unit {0})) × Host)
      → IsSound r x.1
      → IsSound
          (after_download agent_name download base out version r x).1
          (after_download agent_name download base out version r x).2
  after_download-IsSound base out version r (returned (ok u), h) s =
      after_post_install-IsSound base version (post_install r.kind) r h s
  after_download-IsSound base out version r (returned (err e), h) s = IsSound-fs _ s
  after_download-IsSound base out version r (panicked, h) s = s

  after_mkdir-IsSound :
      (base out : FilePath) (i : EnvoyInstructionInstall) (r : Runner)
      (x : Result (Unit {0}) × Host)
      → IsSound r x.1
      → IsSound
          (after_mkdir agent_name download base out i r x).1
          (after_mkdir agent_name download base out i r x).2
  after_mkdir-IsSound base out i r (ok u, h) s =
      after_download-IsSound base out i.version r
        (on_host h (download_extract_tar_gz out (download i.url) i.exe h.fs)) (IsSound-fs _ s)
  after_mkdir-IsSound base out i r (err e, h) s = s

  pub install_runner-IsSound :
      (base : FilePath) (i : EnvoyInstructionInstall) (r : Runner) (h : Host)
      → IsSound r h
      → IsSound
          (install_runner agent_name download base i r h).1
          (install_runner agent_name download base i r h).2
  install_runner-IsSound base i r h s =
      by_test (file_exists (join base i.version) h.fs).0 _ _
        (activate-IsSound base i.version r _ (IsSound-fs _ s))
        (after_mkdir-IsSound base (join base i.version) i r _ (IsSound-fs _ s))
    where
      by_test :
          (b : Bool) (x y : Run (Unit {0}) × Runner × Host)
          → IsSound x.1 x.2
          → IsSound y.1 y.2
          → IsSound (if b then x else y).1 (if b then x else y).2
      by_test true x y p q = p
      by_test false x y p q = q

module _ (codec : Codec) (lumberjack_address : String) where
  process_kind-IsSound :
      (k : Kind) (r : Runner) (ops : List ConfigurationOp) (h : Host)
      → IsSound r h
      → IsSound
          (process_kind codec lumberjack_address k r ops h).1
          (process_kind codec lumberjack_address k r ops h).2
  process_kind-IsSound telegraf_runner r ops h s = record { tracked = s.tracked; kind = s.kind }
  process_kind-IsSound filebeat_runner r ops h s = IsSound-fs _ s
  process_kind-IsSound packages_runner r ops h s = IsSound-fs _ s
  process_kind-IsSound oracle_runner r ops h s = IsSound-fs _ s

  after_config-IsSound :
      (x : Run (Result (Unit {0})) × Runner × Host)
      → IsSound x.1 x.2
      → IsSound
          (after_config codec lumberjack_address x).1
          (after_config codec lumberjack_address x).2
  after_config-IsSound (returned (ok u), r, h) s = ensure_running_state-IsSound r true h s
  after_config-IsSound (returned (err e), r, h) s = s
  after_config-IsSound (panicked, r, h) s = s

  pub configure_runner-IsSound :
      (r : Runner) (ops : List ConfigurationOp) (h : Host)
      → IsSound r h
      → let s =
          after_config codec lumberjack_address (process_config codec lumberjack_address r ops h) in
        IsSound s.1 s.2
  unfolding process_config
  configure_runner-IsSound r ops h s =
      after_config-IsSound (process_kind codec lumberjack_address r.kind r ops h)
        (process_kind-IsSound r.kind r ops h s)

on_exit-IsTracked : (i : ℕ) (p : Processes) → IsTracked p → IsTracked (on_exit i p)
unfolding on_exit
on_exit-IsTracked i p t = elim (Bool-cases (is_waited (get_elem? p.ctxs i))) [
  | inl e ↦ rw e (wait_on_agent_command-IsTracked i p t)
  | inr e ↦ rw e t
]

pub exit-IsSound :
    (i : ℕ) (r : Runner) (h : Host)
    → IsSound r h
    → IsSound (record r { procs = on_exit i r.procs }) h
exit-IsSound i r h s = record { tracked = on_exit-IsTracked i r.procs s.tracked; kind = s.kind }

pub on_restart-IsSound :
    (r : Runner) (h : Host) → IsSound r h → IsSound (on_restart r h).0 (on_restart r h).1
unfolding on_restart
on_restart-IsSound r h s = restart_from-IsSound r.procs.restarts
  where
    restart_from-IsSound : (n : ℕ) → IsSound (restart_from n r h).0 (restart_from n r h).1
    restart_from-IsSound zero = s
    restart_from-IsSound (suc n) =
        ensure_running_state-IsSound (record r { procs = record (r.procs) { restarts = n } }) false
          h
          (record {
            tracked = record {
              at = λ i c g a.
                  let held = s.tracked.at i c g a in
                  record {
                    held = held.held;
                    reapable = held.reapable;
                    unstopped = held.unstopped;
                    waited = held.waited;
                  };
            };
            kind = s.kind;
          })
