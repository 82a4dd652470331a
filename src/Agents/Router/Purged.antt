-- ===== src/Agents/Router/Purged.antt =====
-- After a purge nothing is configured.
use mathlib.Core.Path.{subst}
use salus_telemetry_envoy.Common.{
  nat_eq, string_eq, texts_eq, [], ◌∷◌, if◌then◌else◌, true, arith, ◌≡◌, refl, sym, none,
}
use salus_telemetry_envoy.Common.Assoc.{Assoc, lookup}
use salus_telemetry_envoy.Common.Result.{Result, ok, err, wrap_err}
use salus_telemetry_envoy.Protocol.{AgentType}
use salus_telemetry_envoy.Paths.{FilePath, join}
use salus_telemetry_envoy.Os.{Fs, Node, node_at}
use salus_telemetry_envoy.Os.Write.{remove_all, outside, starts}
use salus_telemetry_envoy.Agents.Files.{purge_configs_directory, configs_dir_subpath}
use salus_telemetry_envoy.Agents.Process.{Host}
use salus_telemetry_envoy.Agents.Runner.{Kind, telegraf_runner, Runner, purge_config, purge_kind}
use salus_telemetry_envoy.Agents.Router.Detach.{AllRunners}
use salus_telemetry_envoy.Agents.Router.{
  Router, Purging, after_purge, purge_runners, purge_agent_configs,
}

-- The configuration of a runner is gone.
abbrev pub IsPurged : Fs → Kind → Runner → Type 0
IsPurged fs telegraf_runner r = r.configs ≡ []
IsPurged fs _ r =
    (q : FilePath) → starts (join r.base_path configs_dir_subpath) q ≡ true → node_at fs q ≡ none

lookup-outside :
    (p q : FilePath) (m : Assoc FilePath Node)
    → lookup q (outside p m) ≡ (if starts p q then none else lookup q m)
unfolding outside lookup
lookup-outside p q [] = ground arith
lookup-outside p q ((i, n) ∷ rest) = ground (arith, texts_eq.same_iff i q, lookup-outside p q rest)

remove_all-none :
    (p q : FilePath) (fs : Fs)
    → (remove_all p fs).0 ≡ ok tt
    → starts p q ≡ true
    → node_at (remove_all p fs).1 q ≡ none
unfolding remove_all
remove_all-none p q fs h s = ground (arith, lookup-outside p q fs.nodes)

remove_all-keeps_none :
    (p q : FilePath) (fs : Fs) → node_at fs q ≡ none → node_at (remove_all p fs).1 q ≡ none
unfolding remove_all
remove_all-keeps_none p q fs h = ground (arith, lookup-outside p q fs.nodes)

abbrev pub AllPurged : Fs → Assoc AgentType Runner → Type 0
AllPurged fs = AllRunners (λ r. IsPurged fs r.kind r)

purge_kind-IsPurged :
    (k : Kind) (r : Runner) (h : Host)
    → (purge_kind k r h).0 ≡ ok tt
    → IsPurged (purge_kind k r h).2.fs k (purge_kind k r h).1
unfolding purge_configs_directory
purge_kind-IsPurged telegraf_runner r h e = refl
purge_kind-IsPurged _ r h e = λ q. remove_all-none _ q h.fs (wrapped_ok _ e)
  where
    wrapped_ok :
        (x : Result (Unit {0})) → wrap_err "failed to purge configs directory" x ≡ ok tt → x ≡ ok tt
    wrapped_ok (ok u) w = refl
    wrapped_ok (err y) w = cc

kind-purge_kind : (k : Kind) (r : Runner) (h : Host) → (purge_kind k r h).1.kind ≡ r.kind
kind-purge_kind telegraf_runner r h = refl
kind-purge_kind _ r h = refl

purge_config-IsPurged :
    (r : Runner) (h : Host)
    → (purge_config r h).0 ≡ ok tt
    → IsPurged (purge_config r h).2.fs (purge_config r h).1.kind (purge_config r h).1
unfolding purge_config
purge_config-IsPurged r h e =
    let p = purge_kind-IsPurged r.kind r h e in
    subst (λ k. IsPurged (purge_config r h).2.fs k (purge_config r h).1)
      (sym (kind-purge_kind r.kind r h)) p

purge_kind-keeps_none :
    (k : Kind) (r : Runner) (h : Host) (q : FilePath)
    → node_at h.fs q ≡ none
    → node_at (purge_kind k r h).2.fs q ≡ none
unfolding purge_configs_directory
purge_kind-keeps_none telegraf_runner r h q n = n
purge_kind-keeps_none _ r h q n = remove_all-keeps_none _ q h.fs n

purge_config-keeps_none :
    (r : Runner) (h : Host) (q : FilePath)
    → node_at h.fs q ≡ none
    → node_at (purge_config r h).2.fs q ≡ none
unfolding purge_config
purge_config-keeps_none r h q n = purge_kind-keeps_none r.kind r h q n

after_purge-keeps_none :
    (t : AgentType) (rest : Assoc AgentType Runner) (more : Host → Purging) (q : FilePath)
    (s : Result (Unit {0}) × Runner × Host)
    → ((h : Host) → node_at h.fs q ≡ none → node_at (more h).2.fs q ≡ none)
    → node_at s.2.fs q ≡ none
    → node_at (after_purge t rest more s).2.fs q ≡ none
after_purge-keeps_none t rest more q (ok u, r, h) k n = k h n
after_purge-keeps_none t rest more q (err e, r, h) k n = n

purge_runners-keeps_none :
    (m : Assoc AgentType Runner) (h : Host) (q : FilePath)
    → node_at h.fs q ≡ none
    → node_at (purge_runners m h).2.fs q ≡ none
unfolding purge_runners
purge_runners-keeps_none [] h q n = n
purge_runners-keeps_none ((t, r) ∷ rest) h q n =
    after_purge-keeps_none t rest _ q _ (λ g. purge_runners-keeps_none rest g q)
      (purge_config-keeps_none r h q n)

-- A purged runner stays so while files go.
IsPurged-mono :
    (k : Kind) (r : Runner) (fs gs : Fs)
    → ((q : FilePath) → node_at fs q ≡ none → node_at gs q ≡ none)
    → IsPurged fs k r
    → IsPurged gs k r
IsPurged-mono telegraf_runner r fs gs keep p = p
IsPurged-mono _ r fs gs keep p = λ q s. keep q (p q s)

after_purge-AllPurged :
    (t : AgentType) (rest : Assoc AgentType Runner) (more : Host → Purging)
    (s : Result (Unit {0}) × Runner × Host)
    → ((h : Host) → (more h).0 ≡ ok tt → AllPurged (more h).2.fs (more h).1)
    → ((h : Host) (q : FilePath) → node_at h.fs q ≡ none → node_at (more h).2.fs q ≡ none)
    → (s.0 ≡ ok tt → IsPurged s.2.fs s.1.kind s.1)
    → (after_purge t rest more s).0 ≡ ok tt
    → AllPurged (after_purge t rest more s).2.fs (after_purge t rest more s).1
after_purge-AllPurged t rest more (ok u, r, h) all keep one e =
    (IsPurged-mono r.kind r h.fs (more h).2.fs (keep h) (one refl), all h e)
after_purge-AllPurged t rest more (err x, r, h) all keep one e = absurd (cc e)

purge_runners-AllPurged :
    (m : Assoc AgentType Runner) (h : Host)
    → (purge_runners m h).0 ≡ ok tt
    → AllPurged (purge_runners m h).2.fs (purge_runners m h).1
unfolding purge_runners
purge_runners-AllPurged [] h e = tt
purge_runners-AllPurged ((t, r) ∷ rest) h e =
    after_purge-AllPurged t rest _ _ (purge_runners-AllPurged rest)
      (λ g q. purge_runners-keeps_none rest g q) (purge_config-IsPurged r h) e

-- PurgeAgentConfigs, when it reports no error, leaves telegraf without configurations in memory
-- and the other runners without a file at or below their config.d directories.
pub purge_agent_configs-AllPurged :
    (ar : Router)
    → (purge_agent_configs ar).0 ≡ ok tt
    → AllPurged (purge_agent_configs ar).1.host.fs (purge_agent_configs ar).1.runners
unfolding purge_agent_configs
purge_agent_configs-AllPurged ar = purge_runners-AllPurged ar.runners ar.host
