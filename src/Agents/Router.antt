-- ===== src/Agents/Router.antt =====
-- agents/agents_router.go: the router of install and configure instructions. Its mutex makes the
-- two exclude one another, so each is one step here.
pub mod Link
pub mod Kept
pub mod Detach
pub mod Purged
use salus_telemetry_envoy.Common.{
  ◌==◌, string_eq, List, [], ◌∷◌, String, if◌then◌else◌, true, false, Option, none, some,
}
use salus_telemetry_envoy.Common.Assoc.{Assoc, lookup, insert}
use salus_telemetry_envoy.Common.Result.{
  Result, ok, err, Error, message, wrap, is_not_exist, wrap_err,
}
use salus_telemetry_envoy.Protocol.{
  AgentType, agent_eq, EnvoyInstructionInstall, EnvoyInstructionConfigure,
}
use salus_telemetry_envoy.Paths.{FilePath, join}
use salus_telemetry_envoy.Os.{Fs, Node, lstat, readlink, symlink}
use salus_telemetry_envoy.Os.Write.{Io, mkdir_all, remove, remove_all}
use salus_telemetry_envoy.Agents.Convert.{Codec}
use salus_telemetry_envoy.Agents.Files.{
  Run, returned, panicked, Download, file_exists, download_extract_tar_gz, current_ver_link,
}
use salus_telemetry_envoy.Agents.Process.{Host}
use salus_telemetry_envoy.Agents.Runner.{
  Runner, ensure_running_state, stop_runner, post_install, purge_config, process_config,
}

-- specificAgentRunners, in the order in which Go's map iteration visits it.
pub record Router : Type 0 where
  pub data_path : FilePath
  pub runners : Assoc AgentType Runner
  pub host : Host

abbrev pub Installing : Type 0
Installing = Result (Unit {0}) × Runner × Host

abbrev pub on_host : {A : Type 0} → Host → A × Fs → A × Host
on_host h r = (r.0, record h { fs = r.1 })

-- make sure a previous version is stopped, and create the link
abbrev pub link_anew : FilePath → String → Runner → Host → Installing
link_anew path version r h =
    let s = stop_runner r h in
    let l = on_host s.1 (symlink version path s.1.fs) in
    (wrap_err "failed to create current version symlink" l.0, s.0, l.1)

abbrev pub after_removal : FilePath → String → Runner → Result (Unit {0}) × Host → Installing
after_removal path version r (ok _, h) = link_anew path version r h
after_removal path version r (err e, h) =
    (err (wrap "failed to delete current version symlink" e), r, h)

-- the link is present, but maybe it already points to the version
abbrev pub after_readlink : FilePath → String → Runner → Result String × Host → Installing
after_readlink path version r (err e, h) = (err (wrap "failed to read current link" e), r, h)
after_readlink path version r (ok target, h) =
    if target == version
    then (ok tt, r, h)
    else after_removal path version r (on_host h (remove path h.fs))

abbrev pub after_lstat : FilePath → String → Runner → Result Node × Host → Installing
after_lstat path version r (err e, h) =
    if is_not_exist e
    then link_anew path version r h
    else (err (wrap "failed to access current link" e), r, h)
after_lstat path version r (ok _, h) =
    after_readlink path version r (on_host h (readlink path h.fs))

unfoldable pub ensure_current_symlink : FilePath → String → Runner → Host → Installing
ensure_current_symlink base version r h =
    after_lstat (join base current_ver_link) version r
      (on_host h (lstat (join base current_ver_link) h.fs))

abbrev pub keep_runner : Router → AgentType → Runner × Host → Router
keep_runner ar t s = record ar { runners = insert t s.0 ar.runners; host = s.1 }

module _ (agent_name : AgentType → String) (download : String → Download) where
  -- an error is logged, and the link and the process are left
  abbrev pub after_link : Installing → Runner × Host
  after_link (ok _, r, h) = ensure_running_state r false h
  after_link (err e, r, h) = (r, h)

  abbrev pub activate : FilePath → String → Runner → Host → Run (Unit {0}) × Runner × Host
  activate base version r h =
      let s = after_link (ensure_current_symlink base version r h) in (returned tt, s.0, s.1)

  abbrev pub after_post_install :
      FilePath → String → Result (Unit {0}) → Runner → Host → Run (Unit {0}) × Runner × Host
  after_post_install base version (ok _) r h = activate base version r h
  after_post_install base version (err e) r h = (returned tt, r, h)

  abbrev pub after_download :
      FilePath
      → FilePath
      → String
      → Runner
      → Run (Result (Unit {0})) × Host
      → Run (Unit {0}) × Runner × Host
  after_download base out version r (returned (ok _), h) =
      after_post_install base version (post_install r.kind) r h
  after_download base out version r (returned (err e), h) =
      (returned tt, r, (on_host h (remove_all out h.fs)).1)
  after_download base out version r (panicked, h) = (panicked, r, h)

  abbrev pub after_mkdir :
      FilePath
      → FilePath
      → EnvoyInstructionInstall
      → Runner
      → Result (Unit {0}) × Host
      → Run (Unit {0}) × Runner × Host
  after_mkdir base out i r (ok _, h) =
      after_download base out i.version r
        (on_host h (download_extract_tar_gz out (download i.url) i.exe h.fs))
  after_mkdir base out i r (err e, h) = (returned tt, r, h)

  abbrev pub install_runner :
      FilePath → EnvoyInstructionInstall → Runner → Host → Run (Unit {0}) × Runner × Host
  install_runner base i r h =
      let there = on_host h (file_exists (join base i.version) h.fs) in
      if there.0
      then activate base i.version r there.1
      else after_mkdir base (join base i.version) i r
          (on_host there.1 (mkdir_all (join base i.version) there.1.fs))

  abbrev pub install_at : Option Runner → EnvoyInstructionInstall → Router → Run (Unit {0}) × Router
  install_at none i ar = (returned tt, ar)
  install_at (some r) i ar =
      let s =
        install_runner (join (join ar.data_path "agents") (agent_name i.agent_type)) i r ar.host in
      (s.0, keep_runner ar i.agent_type (s.1, s.2))

  unfoldable pub process_install : EnvoyInstructionInstall → Router → Run (Unit {0}) × Router
  process_install i ar = install_at (lookup i.agent_type ar.runners) i ar

module _ (codec : Codec) (lumberjack_address : String) where
  -- errors, noAppliedConfigsError too, are logged
  abbrev pub after_config : Run (Result (Unit {0})) × Runner × Host → Run (Unit {0}) × Runner × Host
  after_config (returned (ok _), r, h) =
      let s = ensure_running_state r true h in (returned tt, s.0, s.1)
  after_config (returned (err e), r, h) = (returned tt, r, h)
  after_config (panicked, r, h) = (panicked, r, h)

  abbrev pub configure_at :
      Option Runner → EnvoyInstructionConfigure → Router → Run (Unit {0}) × Router
  configure_at none c ar = (returned tt, ar)
  configure_at (some r) c ar =
      let s = after_config (process_config codec lumberjack_address r c.operations ar.host) in
      (s.0, keep_runner ar c.agent_type (s.1, s.2))

  unfoldable pub process_configure : EnvoyInstructionConfigure → Router → Run (Unit {0}) × Router
  process_configure c ar = configure_at (lookup c.agent_type ar.runners) c ar

unfoldable pub stop_runners : Assoc AgentType Runner → Host → Assoc AgentType Runner × Host
stop_runners [] h = ([], h)
stop_runners ((t, r) ∷ rest) h =
    let s = stop_runner r h in let more = stop_runners rest s.1 in ((t, s.0) ∷ more.0, more.1)

unfoldable pub stop_all : Router → Router
unfolding stop_runners
stop_all ar = let s = stop_runners ar.runners ar.host in record ar { runners = s.0; host = s.1 }

abbrev pub Purging : Type 0
Purging = Result (Unit {0}) × Assoc AgentType Runner × Host

-- After one runner's PurgeConfig: the first error ends the loop.
abbrev pub after_purge :
    AgentType
    → Assoc AgentType Runner
    → (Host → Purging)
    → Result (Unit {0}) × Runner × Host
    → Purging
after_purge t rest more (ok _, r, h) = let m = more h in (m.0, (t, r) ∷ m.1, m.2)
after_purge t rest more (err e, r, h) = (err e, (t, r) ∷ rest, h)

-- PurgeAgentConfigs
unfoldable pub purge_runners : Assoc AgentType Runner → Host → Purging
purge_runners [] h = (ok tt, [], h)
purge_runners ((t, r) ∷ rest) h = after_purge t rest (purge_runners rest) (purge_config r h)

unfoldable pub purge_agent_configs : Router → Result (Unit {0}) × Router
unfolding purge_runners
purge_agent_configs ar =
    let s = purge_runners ar.runners ar.host in (s.0, record ar { runners = s.1; host = s.2 })

-- A signal that Start's select receives; after `done` it returns.
pub data Signal : Type 0 where
  done detached : Signal

unfoldable pub on_detach : Router → Router
unfolding stop_all purge_agent_configs
on_detach ar = (purge_agent_configs (stop_all ar)).1

unfoldable pub start : List Signal → Router → Router
unfolding on_detach
start [] ar = ar
start (done ∷ rest) ar = stop_all ar
start (detached ∷ rest) ar = start rest (on_detach ar)
