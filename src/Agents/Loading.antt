-- ===== src/Agents/Loading.antt =====
-- NewAgentsRunner of agents/agents_router.go with the registry of agents/registry.go and the Load
-- of the four runners.
pub mod Loaded
use salus_telemetry_envoy.Common.{◌++◌, List, [], ◌∷◌, String, ℕ, Option, none, some}
use Prim.Native.String.{◌++◌ as ◌++s◌}
use salus_telemetry_envoy.Common.Assoc.{Assoc, insert}
use salus_telemetry_envoy.Common.Bytes
use salus_telemetry_envoy.Common.Result.{Result, ok, err, Error, wrap_err, ◌>>=◌}
use salus_telemetry_envoy.Protocol.{AgentType, agent_eq, telegraf, filebeat, packages, oracle}
use salus_telemetry_envoy.Paths.{FilePath, join}
use salus_telemetry_envoy.Config.Listeners.{get_listener_address}
use salus_telemetry_envoy.Agents.Process.{Processes, Host}
use salus_telemetry_envoy.Agents.Runner.{
  Kind, telegraf_runner, filebeat_runner, packages_runner, oracle_runner, Runner,
}
use salus_telemetry_envoy.Agents.Router.{Router, purge_agent_configs}
use salus_telemetry_envoy.Agents.ConfigServer.{ConfigServer}

-- What Load finds: the port that net.Listen gives, two new UUIDs, the addresses of the listeners,
-- the configured durations and their text.
pub record Setting : Type 0 where
  pub listened : Result String
  pub server_id : String
  pub server_token : String
  pub addresses : Assoc String String
  pub default_monitoring_interval : ℕ
  pub max_flush_interval : ℕ
  pub duration_text : ℕ → String

abbrev pub telegraf_json_listener : String
telegraf_json_listener = "telegraf-json"

-- registerSpecificAgentRunner, and the calls of the four init functions.
abbrev pub register_specific_agent_runner :
    AgentType → Kind → Assoc AgentType Kind → Assoc AgentType Kind
register_specific_agent_runner t k m = insert t k m

unfoldable pub specific_agent_runners : Assoc AgentType Kind
specific_agent_runners = register_specific_agent_runner telegraf telegraf_runner (
    register_specific_agent_runner packages packages_runner (
      register_specific_agent_runner oracle oracle_runner
        (register_specific_agent_runner filebeat filebeat_runner [])))

unfoldable pub supported_agents : Assoc AgentType Kind → List AgentType
supported_agents [] = []
supported_agents ((t, k) ∷ rest) = t ∷ supported_agents rest

-- telegrafMainConfigTmpl
unfoldable pub main_config : String → String → String → List ℕ
main_config interval flush address =
    Bytes.of "\n[agent]\n  interval = \""
    ++ (Bytes.of interval
        ++ (Bytes.of "\"\n  flush_interval = \""
            ++ (Bytes.of flush
                ++ (Bytes.of
                      "\"\n  flush_jitter = \"2s\"\n  omit_hostname = true\n[[outputs.socket_writer]]\n  address = \"tcp://"
                    ++ (Bytes.of address
                        ++ Bytes.of
                            "\"\n  data_format = \"json\"\n  json_timestamp_units = \"1ms\"\n[[inputs.internal]]\n  collect_memstats = false\n")))))

unfoldable pub create_main_config : Setting → List ℕ
create_main_config s =
    main_config (s.duration_text s.default_monitoring_interval)
      (s.duration_text s.max_flush_interval)
      (get_listener_address telegraf_json_listener s.addresses)

abbrev pub no_processes : Processes
no_processes = record { running = none; ctxs = []; restarts = 0; reloads = 0 }

abbrev pub new_runner : Kind → FilePath → Runner
new_runner k base = record { kind = k; base_path = base; procs = no_processes; configs = [] }

-- The error of an Errorf with %T.
abbrev pub type_name : Kind → String
type_name telegraf_runner = "*agents.TelegrafRunner"
type_name filebeat_runner = "*agents.FilebeatRunner"
type_name packages_runner = "*agents.PackagesAgentRunner"
type_name oracle_runner = "*agents.OracleRunner"

abbrev pub or_server : Option ConfigServer → Option ConfigServer → Option ConfigServer
or_server none d = d
or_server (some c) d = some c

abbrev pub after_purge_all :
    Option ConfigServer → Result (Unit {0}) × Router → Result (Router × Option ConfigServer)
after_purge_all c (ok _, ar) = ok (ar, c)
after_purge_all c (err e, ar) = err e

module _ (agent_name : AgentType → String) (s : Setting) (data_path : FilePath) where
  abbrev pub config_server : String → ConfigServer
  config_server port = record {
    id = s.server_id;
    host_port = "127.0.0.1:" ++s port;
    token = s.server_token;
    main_config = create_main_config s;
  }

  abbrev pub agent_base_path : AgentType → FilePath
  agent_base_path t = join (join data_path "agents") (agent_name t)

  -- Load, with the server that telegraf's runner starts.
  unfoldable pub load_runner : Kind → FilePath → Result (Runner × Option ConfigServer)
  load_runner telegraf_runner base = do
    port ← wrap_err "couldn't create http listener" s.listened
    ok (new_runner telegraf_runner base, some (config_server port))
  load_runner k base = ok (new_runner k base, none)

  unfoldable pub load_runners :
      Assoc AgentType Kind → Result (Assoc AgentType Runner × Option ConfigServer)
  unfolding load_runner
  load_runners [] = ok ([], none)
  load_runners ((t, k) ∷ rest) = do
    l ← wrap_err ("loading agent runner: " ++s type_name k) (load_runner k (agent_base_path t))
    more ← load_runners rest
    ok ((t, l.0) ∷ more.0, or_server l.1 more.1)

  unfoldable pub new_agents_runner :
      Assoc AgentType Kind → Host → Result (Router × Option ConfigServer)
  unfolding load_runners
  new_agents_runner registry h = do
    l ← load_runners registry
    after_purge_all l.1
        (purge_agent_configs (record { data_path = data_path; runners = l.0; host = h }))
