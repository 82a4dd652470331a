-- ===== src/Commands/Startup/Wired.antt =====
-- How the parts are wired to one another when they start.
use salus_telemetry_envoy.Common.{
  nat_eq, string_eq, texts_eq, List, [], String, Bool, true, false, ◌≡◌, ◌⊎◌, refl, ap, Option,
  none, some,
}
use Prim.Native.String.{◌++◌ as ◌++s◌}
use salus_telemetry_envoy.Common.Assoc.{Assoc}
use salus_telemetry_envoy.Common.Result.{Result, ok, err, Error, ok_inj}
use salus_telemetry_envoy.Protocol.{AgentType, EnvoyInstruction}
use salus_telemetry_envoy.Paths.{FilePath}
use salus_telemetry_envoy.Config.Host.{System}
use salus_telemetry_envoy.Config.Listeners.{HostPort, get_listener_address}
use salus_telemetry_envoy.Agents.Files.{returned, panicked}
use salus_telemetry_envoy.Agents.Process.{Host}
use salus_telemetry_envoy.Agents.Runner.{Kind}
use salus_telemetry_envoy.Agents.Router.{Router}
use salus_telemetry_envoy.Agents.ConfigServer.{ConfigServer}
use salus_telemetry_envoy.Agents.Loading.{
  Setting, main_config, create_main_config, new_agents_runner, telegraf_json_listener,
}
use salus_telemetry_envoy.Agents.Loading.Loaded.{
  has_telegraf, fresh_server, IsReady, IsLoaded, no_listener, not_purged, loaded,
  new_agents_runner-IsLoaded,
}
use salus_telemetry_envoy.Ambassador.Egress.{new_egress_connection}
use salus_telemetry_envoy.Commands.Startup.{
  Ingestor, Binding, bind_all, Startup, fatal, crashed, after_load, after_bind, prepare, connected,
  run_envoy, lumberjack_listener,
}
use salus_telemetry_envoy.Commands.Startup.Bound.{
  first_failure, any_unsplit, reached_at, IsBinding, binding_failed, binding_unsplit, all_bound,
  AllBound, IsBinding-AllBound, all-IsBinding,
}
use salus_telemetry_envoy.Agents.Convert.{Codec}
use salus_telemetry_envoy.Agents.Files.{Download}
use salus_telemetry_envoy.Agents.TestMonitor.{Console}
use salus_telemetry_envoy.Ambassador.Instructions.{load}
use salus_telemetry_envoy.Commands.Startup.{run_detached, after_instructions}

module _ (net : HostPort) (all : List Ingestor) (agent_name : AgentType → String) (s : Setting)
    (data_path : FilePath) (registry : Assoc AgentType Kind) (h : Host) where
  -- telegraf's server, for metrics sent to where the ingestor is reached.
  abbrev pub server_at : Bool → String → Option ConfigServer
  server_at true port = some (record {
    id = s.server_id;
    host_port = "127.0.0.1:" ++s port;
    token = s.server_token;
    main_config =
        main_config (s.duration_text s.default_monitoring_interval)
          (s.duration_text s.max_flush_interval) (reached_at net telegraf_json_listener all "");
  })
  server_at false port = none

  -- The router, telegraf's server and the addresses, when all is prepared.
  pub record IsWired (ar : Router) (c : Option ConfigServer) (m : Assoc String String)
      : Type 0 where
    pub ready : IsReady agent_name (record s { addresses = m }) data_path registry h ar
    pub port : String
    pub listened : (has_telegraf registry ≡ false) ⊎ (s.listened ≡ ok port)
    pub server : c ≡ server_at (has_telegraf registry) port
    pub filebeat :
        get_listener_address lumberjack_listener m ≡ reached_at net lumberjack_listener all ""

  -- How the preparation ends, or goes on.
  pub data IsPrepared {C : Type 0}
      (k : Router → Option ConfigServer → Assoc String String → Startup C) (o : Startup C)
      : Type 0 where
    unbound :
        (e : Error)
        → first_failure all ≡ some e
        → o ≡ fatal "failed to connect ingestor" e
        → IsPrepared k o
    crashes : any_unsplit net all ≡ true → o ≡ crashed → IsPrepared k o
    unloaded :
        (e : Error) (m : Assoc String String)
        → first_failure all ≡ none
        → any_unsplit net all ≡ false
        → new_agents_runner agent_name (record s { addresses = m }) data_path registry h ≡ err e
        → o ≡ fatal "unable to setup agent runner" e
        → IsPrepared k o
    prepared :
        (ar : Router) (c : Option ConfigServer) (m : Assoc String String)
        → first_failure all ≡ none
        → any_unsplit net all ≡ false
        → IsWired ar c m
        → o ≡ k ar c m
        → IsPrepared k o

  server_lem :
      (b : Bool) (port : String) (m : Assoc String String)
      → get_listener_address telegraf_json_listener m ≡ reached_at net telegraf_json_listener all ""
      → fresh_server agent_name (record s { addresses = m }) data_path b port ≡ server_at b port
  unfolding create_main_config
  server_lem true port m r = rw r refl
  server_lem false port m r = refl

  after_load-IsPrepared :
      {C : Type 0} (k : Router → Option ConfigServer → Assoc String String → Startup C)
      (m : Assoc String String)
      → AllBound net telegraf_json_listener all m
      → AllBound net lumberjack_listener all m
      → (r : Result (Router × Option ConfigServer))
      → new_agents_runner agent_name (record s { addresses = m }) data_path registry h ≡ r
      → IsLoaded agent_name (record s { addresses = m }) data_path registry h r
      → IsPrepared k (after_load net all agent_name s data_path registry h m k r)
  after_load-IsPrepared k m b c (err e) n l = unloaded e m b.unfailed b.split n refl
  after_load-IsPrepared k m b w (ok (ar, c)) n (no_listener e t f q) = absurd (cc q)
  after_load-IsPrepared k m b w (ok (ar, c)) n (not_purged e p q) = absurd (cc q)
  after_load-IsPrepared k m b w (ok (ar, c)) n (loaded ar' port d q y) =
      prepared ar' _ m b.unfailed b.split
        (record {
          ready = y;
          port = port;
          listened = d;
          server = server_lem (has_telegraf registry) port m b.reached;
          filebeat = w.reached;
        })
        (ap (λ (p : Router × Option ConfigServer). k p.0 p.1 m) (ok_inj q))

  prepare-IsPrepared :
      {C : Type 0} (k : Router → Option ConfigServer → Assoc String String → Startup C)
      → IsPrepared k (prepare net all agent_name s data_path registry h k)
  unfolding prepare
  prepare-IsPrepared k =
      by_bind (bind_all net all []) refl (all-IsBinding net telegraf_json_listener all)
    where
      by_bind :
          (b : Binding)
          → bind_all net all [] ≡ b
          → IsBinding net telegraf_json_listener all "" b
          → IsPrepared k (after_bind net all agent_name s data_path registry h k b)
      by_bind (returned (ok u), m) e o =
          after_load-IsPrepared k m
            (IsBinding-AllBound net telegraf_json_listener all _ m e
              (all-IsBinding net telegraf_json_listener all))
            (IsBinding-AllBound net lumberjack_listener all _ m e
              (all-IsBinding net lumberjack_listener all))
            _ refl
            (new_agents_runner-IsLoaded agent_name (record s { addresses = m }) data_path registry
              h)
      by_bind (returned (err x), m) e o = elim o [
        | binding_failed y q f ↦ unbound x (cc (q, f)) refl
        | binding_unsplit q f ↦ absurd (cc q)
        | all_bound q a s g ↦ absurd (cc q)
      ]
      by_bind (panicked, m) e o = elim o [
        | binding_failed y q f ↦ absurd (cc q)
        | binding_unsplit q f ↦ crashes f refl
        | all_bound q a s g ↦ absurd (cc q)
      ]

  -- Both commands end with the error of the first configured ingestor that cannot listen, with a
  -- panic where the address of one cannot be split, or, if neither is the case, with the error of
  -- NewAgentsRunner; and only if all configured ingestors are bound do they go on, with
  -- a router that is ready and runs no process, with telegraf's metrics sent to where the last
  -- ingestor bound under that name is reached, and filebeat's lines to where the lumberjack
  -- ingestor is: run with the connection, detached with the instructions of its file.
  pub commands-IsPrepared :
      {Tls : Type 0} (resource_id : String) (tls_disabled : Bool) (insecure : Tls)
      (tls : Result Tls) (sys : System) (configured : Assoc String String) (codec : Codec)
      (console : Console codec.Float) (download : String → Download)
      (instructions : Result (Result (List EnvoyInstruction)))
      → IsPrepared
          (connected
            (new_egress_connection resource_id tls_disabled insecure tls true sys configured))
          (run_envoy net all agent_name s data_path registry h resource_id tls_disabled insecure tls
            sys configured)
        × IsPrepared
            (λ ar c m. after_instructions c m (
              load agent_name download codec console
                (get_listener_address lumberjack_listener m)
                instructions
                ar))
            (run_detached net all agent_name s data_path registry h codec console download
              instructions)
  unfolding run_envoy run_detached
  commands-IsPrepared resource_id tls_disabled insecure tls sys configured codec console download
        instructions =
      (prepare-IsPrepared _, prepare-IsPrepared _)
