-- ===== src/Examples/Startups.antt =====
-- The theorems on the commands and on telegraf's configuration server at concrete inputs.
use salus_telemetry_envoy.Common.{
  ◌==◌, nat_eq, string_eq, texts_eq, List, [], ◌∷◌, String, true, arith, ◌≡◌, ◌≢◌, ◌⊎◌, refl, ℕ,
  ◌≤◌, ◌<◌, Option, none, some,
}
use salus_telemetry_envoy.Common.Assoc.{Assoc}
use salus_telemetry_envoy.Common.Result.{Result, ok, err, Error, message}
use salus_telemetry_envoy.Protocol.{EnvoyInstruction}
use salus_telemetry_envoy.Config.Listeners.{HostPort, get_listener_address}
use salus_telemetry_envoy.Ingest.PerfTest.{pos}
use salus_telemetry_envoy.Agents.Files.{returned, map_run}
use salus_telemetry_envoy.Agents.Telegraf.{concat_configs, Configs, Memory}
use salus_telemetry_envoy.Agents.ConfigServer.{
  Request, Response, ServeMux, written, ConfigServer, pattern_of, serve, serve_test, agent_command,
  test_command, write_errors,
}
use salus_telemetry_envoy.Agents.ConfigServer.Access.{
  IsExact, Client, request_of, IsClient, HasAccess, serve-HasAccess, serve_test-HasAccess,
}
use salus_telemetry_envoy.Agents.Loading.{Setting, specific_agent_runners}
use salus_telemetry_envoy.Ambassador.Egress.{new_egress_connection}
use salus_telemetry_envoy.Ambassador.Instructions.{load}
use salus_telemetry_envoy.Commands.Startup.{
  Ingestor, ingestors, connected, after_instructions, run_envoy, run_detached, lumberjack_listener,
}
use salus_telemetry_envoy.Commands.Startup.Wired.{IsPrepared, commands-IsPrepared}
use salus_telemetry_envoy.Commands.Interrupts.{
  Main, waiting, Round, Reach, here, next, notifies, loops, cancels, exits, no_round, round,
  handle_interrupts-exits,
}
use salus_telemetry_envoy.Commands.Stress.{timing}
use salus_telemetry_envoy.Commands.Stress.Rates.{IsTiming, timing-IsTiming}
use salus_telemetry_envoy.Examples.Data.{base, toy}
use salus_telemetry_envoy.Examples.Processes.{host}
use salus_telemetry_envoy.Examples.Systems.{name_of, no_download}
use salus_telemetry_envoy.Examples.Messages.{console}
use salus_telemetry_envoy.Examples.Connections.{bare_system}

abbrev server : ConfigServer
server = record { id = "s1"; host_port = "127.0.0.1:4000"; token = "t1"; main_config = 1 ∷ 2 ∷ [] }

abbrev mux : ServeMux
mux = record {
  matches = λ pattern path. path == pattern;
  not_found = λ r. record { status = 404; body = [] };
}

mux-IsExact : IsExact mux server.id
mux-IsExact = record { matches = λ path. refl; not_found = λ r e. absurd (omega (arith, e)) }

abbrev last_arg : String → List String → String
last_arg d [] = d
last_arg d (a ∷ rest) = last_arg a rest

abbrev client : Client
client = record {
  config_arg = λ arguments. last_arg "" arguments;
  url_path = λ url. pattern_of server.id;
  getenv = λ env name. server.token;
}

abbrev environ : List String
environ = "PATH=/bin" ∷ []

client-IsClient : IsClient client environ server.host_port server.id server.token
client-IsClient = record {
  config_arg = refl;
  test_config_arg = refl;
  url_path = refl;
  getenv = refl;
}

abbrev stranger : Request
stranger = record { path = "/s1"; authorization = "Token guess" }

abbrev cpu_config : Configs
cpu_config = ("m1", 1 ∷ 2 ∷ 3 ∷ 4 ∷ 5 ∷ 6 ∷ 7 ∷ 8 ∷ []) ∷ []

abbrev nothing_beyond : Memory
nothing_beyond id = []

serve-HasAccess_example :
    (serve nothing_beyond mux server cpu_config
        (request_of client (agent_command environ base server))
      ≡ map_run written (concat_configs nothing_beyond server.main_config cpu_config))
    × (HasAccess server.id server.token stranger
        ⊎ ((a : Response) × (serve nothing_beyond mux server cpu_config stranger ≡ returned a)
            × (a.status ≢ 200)))
serve-HasAccess_example =
    serve-HasAccess nothing_beyond mux server cpu_config client environ base stranger mux-IsExact
      client-IsClient

abbrev toml : List ℕ
toml = 3 ∷ 4 ∷ []

abbrev broken_pipe : Option Error
broken_pipe = some (message "broken pipe")

serve_test-HasAccess_example :
    (serve_test mux server.id server.token toml broken_pipe (
        request_of client
          (test_command environ base 30 0 server.host_port server.id server.token).0)
      ≡ (written toml, write_errors broken_pipe))
    × (0 < (test_command environ base 30 0 server.host_port server.id server.token).1)
    × (HasAccess server.id server.token stranger
        ⊎ (((serve_test mux server.id server.token toml broken_pipe stranger).0.status ≢ 200)
            × ((serve_test mux server.id server.token toml broken_pipe stranger).1 ≡ [])))
serve_test-HasAccess_example =
    serve_test-HasAccess mux server.id server.token toml broken_pipe client environ base 30 0
      server.host_port stranger mux-IsExact client-IsClient (omega arith)

abbrev net : HostPort
net = record { split = λ a. some ("0.0.0.0", "8094"); join = λ h p. h }

abbrev all : List Ingestor
all =
    ingestors ("", err (message "unused")) ("localhost:5044", ok "127.0.0.1:5044")
      (pos 0, pos 0, pos 0) ("localhost:8094", ok "127.0.0.1:8094")

abbrev setting : Setting
setting = record {
  listened = ok "4000";
  server_id = "s1";
  server_token = "t1";
  addresses = [];
  default_monitoring_interval = 60;
  max_flush_interval = 60;
  duration_text = λ n. "1m0s";
}

abbrev insecure : ℕ
insecure = 0

abbrev file_content : Result (Result (List EnvoyInstruction))
file_content = err (message "not found")

abbrev configured : Assoc String String
configured = []

commands-IsPrepared_example :
    IsPrepared net all name_of setting
      ("data" ∷ [])
      specific_agent_runners
      host
      (connected
        (new_egress_connection "r1" true insecure (ok insecure) true bare_system configured))
      (run_envoy net all name_of setting
        ("data" ∷ [])
        specific_agent_runners
        host
        "r1"
        true
        insecure
        (ok insecure)
        bare_system
        configured)
    × IsPrepared net all name_of setting
        ("data" ∷ [])
        specific_agent_runners
        host
        (λ ar c m. after_instructions c m (
          load name_of no_download toy console
            (get_listener_address lumberjack_listener m)
            file_content
            ar))
        (run_detached net all name_of setting
          ("data" ∷ [])
          specific_agent_runners
          host
          toy
          console
          no_download
          file_content)
commands-IsPrepared_example =
    commands-IsPrepared net all name_of setting ("data" ∷ []) specific_agent_runners host "r1" true
      insecure (ok insecure) bare_system configured toy console no_download file_content

abbrev interrupted : Main
interrupted = record { pending = 0; cancelled = true; exited = none }

abbrev ended : Main
ended = record { pending = 0; cancelled = true; exited = some 0 }

interrupted-Reach : Reach waiting interrupted
interrupted-Reach = next (next here (notifies (omega arith))) (loops (cancels 0 refl refl))

handle_interrupts-exits_example :
    (1 ≤ 2) × (((u : Main) × Round ended u) ⊎ ((ended.exited ≡ some 0) × (ended.cancelled ≡ true)))
handle_interrupts-exits_example =
    handle_interrupts-exits interrupted 1 ended interrupted-Reach refl
      (round no_round (exits refl refl))

timing-IsTiming_example : IsTiming (pos 20) true (timing (pos 20) true 5)
timing-IsTiming_example = timing-IsTiming (pos 20) true 5
