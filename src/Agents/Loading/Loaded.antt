-- ===== src/Agents/Loading/Loaded.antt =====
-- What NewAgentsRunner returns.
use salus_telemetry_envoy.Common.{
  nat_eq, string_eq, texts_eq, [], ◌∷◌, String, if◌then◌else◌, Bool, true, false, arith, ◌≡◌, ◌⊎◌,
  inl, inr, refl, sym, Option, none, some,
}
use mathlib.Core.Path.{subst}
use Prim.Native.String.{◌++◌ as ◌++s◌}
use salus_telemetry_envoy.Common.Assoc.{Assoc}
use salus_telemetry_envoy.Common.Result.{Result, ok, err, Error, wrap}
use salus_telemetry_envoy.Protocol.{AgentType}
use salus_telemetry_envoy.Paths.{FilePath}
use salus_telemetry_envoy.Agents.Process.{Host}
use salus_telemetry_envoy.Agents.Process.Tracked.{NoLive}
use salus_telemetry_envoy.Agents.Runner.{
  Kind, telegraf_runner, filebeat_runner, packages_runner, oracle_runner, Runner, purge_config,
}
use salus_telemetry_envoy.Agents.Router.{Router, purge_runners, after_purge, purge_agent_configs}
use salus_telemetry_envoy.Agents.Router.Detach.{AllRunners, IsIdle}
use salus_telemetry_envoy.Agents.Router.Purged.{AllPurged, purge_agent_configs-AllPurged}
use salus_telemetry_envoy.Agents.ConfigServer.{ConfigServer}
use salus_telemetry_envoy.Agents.Loading.{
  Setting, new_runner, no_processes, type_name, config_server, agent_base_path, load_runner,
  load_runners, after_purge_all, new_agents_runner,
}

-- telegraf's runner is registered.
abbrev pub has_telegraf : Assoc AgentType Kind → Bool
has_telegraf [] = false
has_telegraf ((t, telegraf_runner) ∷ rest) = true
has_telegraf ((t, k) ∷ rest) = has_telegraf rest

no_processes-NoLive : NoLive no_processes
no_processes-NoLive = record { at = λ i c h. absurd (cc h) }

module _ (agent_name : AgentType → String) (s : Setting) (data_path : FilePath) where
  -- A runner with its own directory and nothing else, for each type.
  abbrev pub fresh_runners : Assoc AgentType Kind → Assoc AgentType Runner
  fresh_runners [] = []
  fresh_runners ((t, k) ∷ rest) =
      (t, new_runner k (agent_base_path agent_name s data_path t)) ∷ fresh_runners rest

  abbrev pub fresh_router : Assoc AgentType Kind → Host → Router
  fresh_router registry h = record {
    data_path = data_path;
    runners = fresh_runners registry;
    host = h;
  }

  abbrev pub fresh_server : Bool → String → Option ConfigServer
  fresh_server true port = some (config_server agent_name s data_path port)
  fresh_server false port = none

  load_runners-listened :
      (port : String) (registry : Assoc AgentType Kind)
      → s.listened ≡ ok port
      → load_runners agent_name s data_path registry
        ≡ ok (fresh_runners registry, fresh_server (has_telegraf registry) port)
  unfolding load_runners load_runner
  load_runners-listened port [] l = refl
  load_runners-listened port ((t, telegraf_runner) ∷ rest) l =
      rw (l, load_runners-listened port rest l) refl
  load_runners-listened port ((t, filebeat_runner) ∷ rest) l =
      rw (load_runners-listened port rest l) refl
  load_runners-listened port ((t, packages_runner) ∷ rest) l =
      rw (load_runners-listened port rest l) refl
  load_runners-listened port ((t, oracle_runner) ∷ rest) l =
      rw (load_runners-listened port rest l) refl

  load_runners-failed :
      (e : Error) (registry : Assoc AgentType Kind)
      → s.listened ≡ err e
      → load_runners agent_name s data_path registry ≡ (
          if has_telegraf registry
          then err (
              wrap
                ("loading agent runner: " ++s type_name telegraf_runner)
                (wrap "couldn't create http listener" e))
          else ok (fresh_runners registry, none))
  unfolding load_runners load_runner
  load_runners-failed e [] l = refl
  load_runners-failed e ((t, telegraf_runner) ∷ rest) l = rw l refl
  load_runners-failed e ((t, filebeat_runner) ∷ rest) l =
      ground (arith, load_runners-failed e rest l)
  load_runners-failed e ((t, packages_runner) ∷ rest) l =
      ground (arith, load_runners-failed e rest l)
  load_runners-failed e ((t, oracle_runner) ∷ rest) l = ground (arith, load_runners-failed e rest l)

  purge_config-fresh :
      (k : Kind) (base : FilePath) (h : Host)
      → (purge_config (new_runner k base) h).1 ≡ new_runner k base
  unfolding purge_config
  purge_config-fresh telegraf_runner base h = refl
  purge_config-fresh _ base h = refl

  after_purge-fresh :
      (t : AgentType) (r : Runner) (rest : Assoc AgentType Runner)
      (more : Host → Result (Unit {0}) × Assoc AgentType Runner × Host)
      (p : Result (Unit {0}) × Runner × Host)
      → p.1 ≡ r
      → ((h : Host) → (more h).1 ≡ rest)
      → (after_purge t rest more p).1 ≡ (t, r) ∷ rest
  after_purge-fresh t r rest more (ok u, q, h) e m = rw (e, m h) refl
  after_purge-fresh t r rest more (err x, q, h) e m = rw e refl

  purge_runners-fresh :
      (registry : Assoc AgentType Kind) (h : Host)
      → (purge_runners (fresh_runners registry) h).1 ≡ fresh_runners registry
  unfolding purge_runners
  purge_runners-fresh [] h = refl
  purge_runners-fresh ((t, k) ∷ rest) h =
      after_purge-fresh t _ _ _
        (purge_config (new_runner k (agent_base_path agent_name s data_path t)) h)
        (purge_config-fresh k _ h) (purge_runners-fresh rest)

  fresh-IsIdle : (registry : Assoc AgentType Kind) → AllRunners IsIdle (fresh_runners registry)
  fresh-IsIdle [] = tt
  fresh-IsIdle ((t, k) ∷ rest) =
      (record { no_live = no_processes-NoLive; not_held = refl }, fresh-IsIdle rest)

  -- A router ready for instructions.
  pub record IsReady (registry : Assoc AgentType Kind) (h : Host) (ar : Router) : Type 0 where
    pub data_dir : ar.data_path ≡ data_path
    pub runners : ar.runners ≡ fresh_runners registry
    pub purged : AllPurged ar.host.fs ar.runners
    pub idle : AllRunners IsIdle ar.runners

  pub data IsLoaded (registry : Assoc AgentType Kind) (h : Host)
      (r : Result (Router × Option ConfigServer)) : Type 0 where
    no_listener :
        (e : Error)
        → has_telegraf registry ≡ true
        → s.listened ≡ err e
        → r
          ≡ err (
              wrap
                ("loading agent runner: " ++s type_name telegraf_runner)
                (wrap "couldn't create http listener" e))
        → IsLoaded registry h r
    not_purged :
        (e : Error)
        → (purge_agent_configs (fresh_router registry h)).0 ≡ err e
        → r ≡ err e
        → IsLoaded registry h r
    loaded :
        (ar : Router) (port : String)
        → (has_telegraf registry ≡ false) ⊎ (s.listened ≡ ok port)
        → r ≡ ok (ar, fresh_server (has_telegraf registry) port)
        → IsReady registry h ar
        → IsLoaded registry h r

  purged-IsReady :
      (registry : Assoc AgentType Kind) (h : Host)
      → (purge_agent_configs (fresh_router registry h)).0 ≡ ok tt
      → IsReady registry h (purge_agent_configs (fresh_router registry h)).1
  purged-IsReady registry h p = record {
    data_dir = unfold purge_agent_configs in refl;
    runners = unfold purge_agent_configs in purge_runners-fresh registry h;
    purged = purge_agent_configs-AllPurged (fresh_router registry h) p;
    idle =
        unfold purge_agent_configs in
        subst (AllRunners IsIdle) (sym (purge_runners-fresh registry h)) (fresh-IsIdle registry);
  }

  after_purge_all-ok :
      (c : Option ConfigServer) (p : Result (Unit {0}) × Router)
      → p.0 ≡ ok tt
      → after_purge_all c p ≡ ok (p.1, c)
  after_purge_all-ok c (ok u, ar) e = refl
  after_purge_all-ok c (err x, ar) e = absurd (cc e)

  after_purge_all-err :
      (c : Option ConfigServer) (p : Result (Unit {0}) × Router) (x : Error)
      → p.0 ≡ err x
      → after_purge_all c p ≡ err x
  after_purge_all-err c (ok u, ar) x e = absurd (cc e)
  after_purge_all-err c (err y, ar) x e = cc e

  listened-IsLoaded :
      (registry : Assoc AgentType Kind) (h : Host) (port : String)
      → (has_telegraf registry ≡ false) ⊎ (s.listened ≡ ok port)
      → load_runners agent_name s data_path registry
        ≡ ok (fresh_runners registry, fresh_server (has_telegraf registry) port)
      → IsLoaded registry h (new_agents_runner agent_name s data_path registry h)
  unfolding new_agents_runner
  listened-IsLoaded registry h port d l =
      rw l (by_purge ((purge_agent_configs (fresh_router registry h)).0) refl)
    where
      by_purge :
          (p : Result (Unit {0}))
          → (purge_agent_configs (fresh_router registry h)).0 ≡ p
          → IsLoaded registry h (
              after_purge_all
                (fresh_server (has_telegraf registry) port)
                (purge_agent_configs (fresh_router registry h)))
      by_purge (ok u) e = loaded _ port d (after_purge_all-ok _ _ e) (purged-IsReady registry h e)
      by_purge (err x) e = not_purged x e (after_purge_all-err _ _ x e)

  -- NewAgentsRunner returns the error of telegraf's listener, or that of a purge; otherwise it
  -- returns a router with the data path, a runner with its own directory and no process for each
  -- registered type, and all configurations purged, and telegraf's runner, if registered, has a server for
  -- its configuration with the address registered for its metrics.
  pub new_agents_runner-IsLoaded :
      (registry : Assoc AgentType Kind) (h : Host)
      → IsLoaded registry h (new_agents_runner agent_name s data_path registry h)
  new_agents_runner-IsLoaded registry h = by_listen s.listened refl
    where
      by_listen :
          (l : Result String)
          → s.listened ≡ l
          → IsLoaded registry h (new_agents_runner agent_name s data_path registry h)
      by_listen (ok port) l =
          listened-IsLoaded registry h port (inr l) (load_runners-listened port registry l)
      by_listen (err e) l = by_type (has_telegraf registry) refl
        where
          by_type :
              (b : Bool)
              → has_telegraf registry ≡ b
              → IsLoaded registry h (new_agents_runner agent_name s data_path registry h)
          by_type true t =
              no_listener e t l
                (unfold new_agents_runner in rw (load_runners-failed e registry l, t) refl)
          by_type false t =
              listened-IsLoaded registry h "" (inl t)
                (rw (load_runners-failed e registry l, t) refl)
