-- ===== src/Config/Keys.antt =====
-- The settings of the Envoy: the keys of config/config_keys.go and those written where they are read,
-- their defaults and their flags. The configuration library, which looks a key up, is not modelled;
-- root.go gives it the prefix and the replacement for the names of environment variables.
use salus_telemetry_envoy.Common.{
  nat_eq, string_eq, texts_eq, ◌++◌, List, [], ◌∷◌, map, String, if◌then◌else◌, Bool, true, false,
  nat_beq, leb, ◌≡◌, refl, ap, ◌&&◌, ◌||◌, ℕ, ◌-◌, ◌*◌, Option, none, some,
}
use Prim.Native.String.{◌++◌ as ◌++s◌}
use salus_telemetry_envoy.Common.Bytes

pub data ConfigKey : Type 0 where
  auth_token_key agents_data_path_key agents_termination_timeout_key agents_restart_delay_key
        agents_test_monitor_timeout_key agents_default_monitoring_interval_key
        agents_max_flush_interval_key ingest_lumberjack_bind_key ingest_telegraf_json_bind_key
        ingest_line_protocol_bind_key ambassador_address_key resource_id_key zone_key
        perf_test_port_key perf_test_metrics_per_minute_key perf_test_floats_per_metric_key
        labels_key tls_disabled_key tls_ca_key tls_cert_key tls_key_key grpc_call_limit_key
        ambassador_keep_alive_interval_key detached_instructions_key stress_connection_count_key
        stress_connections_delay_key stress_metrics_per_minute_key stress_stagger_metrics_key
        stress_resource_prefix_key stress_quiet_key :
      ConfigKey

abbrev pub key_name : ConfigKey → String
key_name auth_token_key = "auth_token"
key_name agents_data_path_key = "agents.dataPath"
key_name agents_termination_timeout_key = "agents.terminationTimeout"
key_name agents_restart_delay_key = "agents.restartDelay"
key_name agents_test_monitor_timeout_key = "agents.testMonitorTimeout"
key_name agents_default_monitoring_interval_key = "agents.defaultMonitoringInterval"
key_name agents_max_flush_interval_key = "agents.maxFlushInterval"
key_name ingest_lumberjack_bind_key = "ingest.lumberjack.bind"
key_name ingest_telegraf_json_bind_key = "ingest.telegraf.json.bind"
key_name ingest_line_protocol_bind_key = "ingest.lineProtocol.bind"
key_name ambassador_address_key = "ambassador.address"
key_name resource_id_key = "resource_id"
key_name zone_key = "zone"
key_name perf_test_port_key = "perfTest.port"
key_name perf_test_metrics_per_minute_key = "perfTest.metricsPerMinute"
key_name perf_test_floats_per_metric_key = "perfTest.floatsPerMetric"
key_name labels_key = "labels"
key_name tls_disabled_key = "tls.disabled"
key_name tls_ca_key = "tls.ca"
key_name tls_cert_key = "tls.cert"
key_name tls_key_key = "tls.key"
key_name grpc_call_limit_key = "grpc.callLimit"
key_name ambassador_keep_alive_interval_key = "ambassador.keepAliveInterval"
key_name detached_instructions_key = "detached.instructions"
key_name stress_connection_count_key = "stress.connection-count"
key_name stress_connections_delay_key = "stress.connections-delay"
key_name stress_metrics_per_minute_key = "stress.metrics-per-minute"
key_name stress_stagger_metrics_key = "stress.stagger-metrics"
key_name stress_resource_prefix_key = "stress.resource-prefix"
key_name stress_quiet_key = "stress.quiet"

abbrev pub config_keys : List ConfigKey
config_keys =
    auth_token_key ∷ agents_data_path_key ∷ agents_termination_timeout_key
    ∷ agents_restart_delay_key ∷ agents_test_monitor_timeout_key
    ∷ agents_default_monitoring_interval_key ∷ agents_max_flush_interval_key
    ∷ ingest_lumberjack_bind_key ∷ ingest_telegraf_json_bind_key ∷ ingest_line_protocol_bind_key
    ∷ ambassador_address_key ∷ resource_id_key ∷ zone_key ∷ perf_test_port_key
    ∷ perf_test_metrics_per_minute_key ∷ perf_test_floats_per_metric_key ∷ labels_key
    ∷ tls_disabled_key ∷ tls_ca_key ∷ tls_cert_key ∷ tls_key_key ∷ grpc_call_limit_key
    ∷ ambassador_keep_alive_interval_key ∷ detached_instructions_key ∷ stress_connection_count_key
    ∷ stress_connections_delay_key ∷ stress_metrics_per_minute_key ∷ stress_stagger_metrics_key
    ∷ stress_resource_prefix_key ∷ stress_quiet_key ∷ []

-- A duration in nanoseconds.
pub data Value : Type 0 where
  text : String → Value
  count : ℕ → Value
  switch : Bool → Value
  duration : ℕ → Value

abbrev pub in_seconds : ℕ → Value
in_seconds n = duration (n * 1_000_000_000)

-- viper.SetDefault in the init functions
unfoldable pub default_of : ConfigKey → Option Value
default_of agents_data_path_key = some (text "/var/lib/telemetry-envoy")
default_of agents_test_monitor_timeout_key = some (in_seconds 30)
default_of agents_default_monitoring_interval_key = some (in_seconds 60)
default_of agents_max_flush_interval_key = some (in_seconds 60)
default_of agents_termination_timeout_key = some (in_seconds 5)
default_of agents_restart_delay_key = some (in_seconds 1)
default_of ambassador_address_key = some (text "localhost:6565")
default_of grpc_call_limit_key = some (in_seconds 30)
default_of ambassador_keep_alive_interval_key = some (in_seconds 45)
default_of ingest_lumberjack_bind_key = some (text "")
default_of ingest_telegraf_json_bind_key = some (text "localhost:8094")
default_of ingest_line_protocol_bind_key = some (text "")
default_of _ = none

-- A flag of a command, with its default and the key that it is bound to.
pub data FlagCommand : Type 0 where
  root_command run_command detached_command check_tls_command stress_command : FlagCommand

pub record Flag : Type 0 where
  pub command : FlagCommand
  pub name : String
  pub preset : Value
  pub bound : ConfigKey
  pub required : Bool

abbrev pub new_flag : FlagCommand → String → Value → ConfigKey → Flag
new_flag c name v k = record { command = c; name = name; preset = v; bound = k; required = false }

unfoldable pub root_flags : List Flag
root_flags =
    new_flag root_command "resource-id" (text "") resource_id_key
    ∷ new_flag root_command "zone" (text "") zone_key
    ∷ new_flag root_command "auth-token" (text "") auth_token_key
    ∷ new_flag root_command "data-path" (text "/var/lib/telemetry-envoy") agents_data_path_key
    ∷ []

unfoldable pub run_flags : List Flag
run_flags =
    new_flag run_command "ca" (text "") tls_ca_key
    ∷ new_flag run_command "cert" (text "") tls_cert_key
    ∷ new_flag run_command "key" (text "") tls_key_key
    ∷ []

unfoldable pub detached_flags : List Flag
detached_flags =
    record (new_flag detached_command "instructions" (text "") detached_instructions_key) {
      required = true;
    }
    ∷ []

unfoldable pub check_tls_flags : List Flag
check_tls_flags = new_flag check_tls_command "ambassador" (text "") ambassador_address_key ∷ []

unfoldable pub stress_flags : List Flag
stress_flags =
    new_flag stress_command "connection-count" (count 5) stress_connection_count_key
    ∷ new_flag stress_command "connections-delay" (duration 0) stress_connections_delay_key
    ∷ new_flag stress_command "metrics-per-minute" (count 20) stress_metrics_per_minute_key
    ∷ new_flag stress_command "stagger-metrics" (switch true) stress_stagger_metrics_key
    ∷ new_flag stress_command "resource-prefix" (text "resource") stress_resource_prefix_key
    ∷ new_flag stress_command "quiet" (switch true) stress_quiet_key
    ∷ []

unfoldable pub flags : List Flag
unfolding root_flags run_flags detached_flags check_tls_flags stress_flags
flags = root_flags ++ (run_flags ++ (detached_flags ++ (check_tls_flags ++ stress_flags)))

-- strings.ToUpper of a byte, then the replacer
abbrev pub env_byte : ℕ → ℕ
env_byte b =
    if leb b'a' b && leb b b'z'
    then b - 32
    else if nat_beq b b'.' || nat_beq b b'-'
    then b'_'
    else b

-- The name of a key's environment variable, in bytes.
unfoldable pub env_name : ConfigKey → List ℕ
env_name k = map env_byte (Bytes.of ("ENVOY_" ++s key_name k))

-- The key of an environment variable.
abbrev same_bytes : List ℕ → List ℕ → Bool
same_bytes [] [] = true
same_bytes (x ∷ xs) (y ∷ ys) = nat_beq x y && same_bytes xs ys
same_bytes _ _ = false

find_key : List ConfigKey → List ℕ → Option ConfigKey
find_key [] name = none
find_key (k ∷ rest) name = if same_bytes (env_name k) name then some k else find_key rest name

find_key-env_name : (k : ConfigKey) → find_key config_keys (env_name k) ≡ some k
unfolding find_key env_name
find_key-env_name auth_token_key = refl
find_key-env_name agents_data_path_key = refl
find_key-env_name agents_termination_timeout_key = refl
find_key-env_name agents_restart_delay_key = refl
find_key-env_name agents_test_monitor_timeout_key = refl
find_key-env_name agents_default_monitoring_interval_key = refl
find_key-env_name agents_max_flush_interval_key = refl
find_key-env_name ingest_lumberjack_bind_key = refl
find_key-env_name ingest_telegraf_json_bind_key = refl
find_key-env_name ingest_line_protocol_bind_key = refl
find_key-env_name ambassador_address_key = refl
find_key-env_name resource_id_key = refl
find_key-env_name zone_key = refl
find_key-env_name perf_test_port_key = refl
find_key-env_name perf_test_metrics_per_minute_key = refl
find_key-env_name perf_test_floats_per_metric_key = refl
find_key-env_name labels_key = refl
find_key-env_name tls_disabled_key = refl
find_key-env_name tls_ca_key = refl
find_key-env_name tls_cert_key = refl
find_key-env_name tls_key_key = refl
find_key-env_name grpc_call_limit_key = refl
find_key-env_name ambassador_keep_alive_interval_key = refl
find_key-env_name detached_instructions_key = refl
find_key-env_name stress_connection_count_key = refl
find_key-env_name stress_connections_delay_key = refl
find_key-env_name stress_metrics_per_minute_key = refl
find_key-env_name stress_stagger_metrics_key = refl
find_key-env_name stress_resource_prefix_key = refl
find_key-env_name stress_quiet_key = refl

-- No two keys have the same environment variable, so no two differ in upper and lower case only, for
-- which the configuration library takes them for one.
env_name_inj : (j k : ConfigKey) → env_name j ≡ env_name k → j ≡ k
env_name_inj j k e = cc (find_key-env_name j, find_key-env_name k, ap (find_key config_keys) e)
