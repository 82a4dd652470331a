-- ===== src/Commands/Startup.antt =====
-- cmd/run.go and cmd/detached.go with the registry of ingest/ingest.go: the order in which the
-- parts are set up, up to the start of their goroutines. log.Fatal ends the process.
pub mod Bound
pub mod Wired
use salus_telemetry_envoy.Common.{List, [], ◌∷◌, String, Bool, true, Option}
use salus_telemetry_envoy.Common.Assoc.{Assoc}
use salus_telemetry_envoy.Common.Result.{Result, ok, err, Error}
use salus_telemetry_envoy.Protocol.{AgentType, EnvoyInstruction}
use salus_telemetry_envoy.Paths.{FilePath}
use salus_telemetry_envoy.Config.Host.{System}
use salus_telemetry_envoy.Config.Listeners.{HostPort, get_listener_address}
use salus_telemetry_envoy.Ingest.Bind.{bind}
use salus_telemetry_envoy.Ingest.PerfTest
use salus_telemetry_envoy.Ingest.PerfTest.{ℤ, PerfTestIngestor}
use salus_telemetry_envoy.Agents.Convert.{Codec}
use salus_telemetry_envoy.Agents.Files.{Run, returned, panicked, Download}
use salus_telemetry_envoy.Agents.Process.{Host}
use salus_telemetry_envoy.Agents.Runner.{Kind}
use salus_telemetry_envoy.Agents.Router.{Router}
use salus_telemetry_envoy.Agents.TestMonitor.{Console}
use salus_telemetry_envoy.Agents.ConfigServer.{ConfigServer}
use salus_telemetry_envoy.Agents.Loading.{Setting, new_agents_runner, telegraf_json_listener}
use salus_telemetry_envoy.Ambassador.Egress.{Connection, new_egress_connection}
use salus_telemetry_envoy.Ambassador.Instructions.{load}

-- An ingestor with what its Bind finds: the text of its error, its listener's name, the configured
-- address, and what net.Listen gives; or the settings of the performance test.
pub data Ingestor : Type 0 where
  listener : String → String → String → Result String → Ingestor
  perf_test : ℤ → ℤ → ℤ → Ingestor

abbrev pub lumberjack_listener : String
lumberjack_listener = "lumberjack"

abbrev pub line_protocol_listener : String
line_protocol_listener = "line-protocol"

-- The ingestors with a listener: the configured address, and what net.Listen gives for it.
abbrev pub line_protocol_ingestor : String × Result String → Ingestor
line_protocol_ingestor (address, listened) =
    listener "failed to bind line protocol listener" line_protocol_listener address listened

abbrev pub lumberjack_ingestor : String × Result String → Ingestor
lumberjack_ingestor (address, listened) =
    listener "failed to bind lumberjack listener" lumberjack_listener address listened

abbrev pub telegraf_json_ingestor : String × Result String → Ingestor
telegraf_json_ingestor (address, listened) =
    listener "failed to bind telegraf json listener" telegraf_json_listener address listened

-- registerIngestor, in the order of the init functions of the package.
unfoldable pub ingestors :
    String × Result String
    → String × Result String
    → ℤ × ℤ × ℤ
    → String × Result String
    → List Ingestor
ingestors line_protocol lumberjack (port, rate, floats) telegraf_json =
    line_protocol_ingestor line_protocol
    ∷ lumberjack_ingestor lumberjack
    ∷ perf_test port rate floats
    ∷ telegraf_json_ingestor telegraf_json
    ∷ []

-- The error of a Bind, or of the first that fails, with the addresses that are registered.
abbrev pub Binding : Type 0
Binding = Run (Result (Unit {0})) × Assoc String String

abbrev pub then_bind : Binding → (Assoc String String → Binding) → Binding
then_bind (returned (ok _), m) k = k m
then_bind (returned (err e), m) k = (returned (err e), m)
then_bind (panicked, m) k = (panicked, m)

unfoldable pub bind_ingestor : HostPort → Ingestor → Assoc String String → Binding
bind_ingestor net (listener failure name address listened) m =
    let b = bind net failure name address listened m in (b.0, b.2)
bind_ingestor net (perf_test port rate floats) m = (returned (ok tt), m)

unfoldable pub bind_all : HostPort → List Ingestor → Assoc String String → Binding
unfolding bind_ingestor
bind_all net [] m = (returned (ok tt), m)
bind_all net (i ∷ rest) m = then_bind (bind_ingestor net i m) (bind_all net rest)

-- The parts before their goroutines start.
pub data Startup (C : Type 0) : Type 0 where
  fatal : String → Error → Startup C
  crashed : Startup C
  started : Router → Option ConfigServer → Assoc String String → C → Startup C

abbrev pub connected :
    {Tls : Type 0}
    → Result (Connection Tls)
    → Router
    → Option ConfigServer
    → Assoc String String
    → Startup (Connection Tls)
connected (ok conn) ar c m = started ar c m conn
connected (err e) ar c m = fatal "unable to setup ambassador connection" e

abbrev pub after_instructions :
    Option ConfigServer
    → Assoc String String
    → Run (Result (Unit {0})) × Router
    → Startup (Unit {0})
after_instructions c m (returned (ok _), ar) = started ar c m tt
after_instructions c m (returned (err e), ar) = fatal "Unable to load detached instructions" e
after_instructions c m (panicked, ar) = crashed

module _ (net : HostPort) (all : List Ingestor) (agent_name : AgentType → String) (s : Setting)
    (data_path : FilePath) (registry : Assoc AgentType Kind) (h : Host) where
  abbrev pub after_load :
      {C : Type 0}
      → Assoc String String
      → (Router → Option ConfigServer → Assoc String String → Startup C)
      → Result (Router × Option ConfigServer)
      → Startup C
  after_load m k (ok (ar, c)) = k ar c m
  after_load m k (err e) = fatal "unable to setup agent runner" e

  abbrev pub after_bind :
      {C : Type 0}
      → (Router → Option ConfigServer → Assoc String String → Startup C)
      → Binding
      → Startup C
  after_bind k (returned (ok _), m) =
      after_load m k
        (new_agents_runner agent_name (record s { addresses = m }) data_path registry h)
  after_bind k (returned (err e), m) = fatal "failed to connect ingestor" e
  after_bind k (panicked, m) = crashed

  -- What the two commands share.
  unfoldable pub prepare :
      {C : Type 0} → (Router → Option ConfigServer → Assoc String String → Startup C) → Startup C
  unfolding bind_all
  prepare k = after_bind k (bind_all net all [])

  -- The run command, with what NewEgressConnection takes from the configuration.
  unfoldable pub run_envoy :
      {Tls : Type 0}
      → String
      → Bool
      → Tls
      → Result Tls
      → System
      → Assoc String String
      → Startup (Connection Tls)
  unfolding prepare
  run_envoy resource_id tls_disabled insecure loaded sys configured = prepare (
      connected
        (new_egress_connection resource_id tls_disabled insecure loaded true sys configured))

  -- The detached command, with the instructions as DetachedRunner.Load reads them.
  unfoldable pub run_detached :
      (codec : Codec)
      → Console codec.Float
      → (String → Download)
      → Result (Result (List EnvoyInstruction))
      → Startup (Unit {0})
  unfolding prepare
  run_detached codec console download instructions = prepare (λ ar c m. after_instructions c m (
      load agent_name download codec console (get_listener_address lumberjack_listener m)
        instructions ar))
