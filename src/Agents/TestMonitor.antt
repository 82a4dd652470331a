-- ===== src/Agents/TestMonitor.antt =====
-- ProcessTestMonitor of agents/telegraf.go, pkgagent.go, oracle.go, filebeat.go and
-- agents_router.go, with RunCommand's retries, and filterLines of agents.go.
pub mod Outcome
pub mod Retry
use salus_telemetry_envoy.Common.{
  ◌==◌, nat_eq, string_eq, ◌++◌, List, [], ◌∷◌, String, if◌then◌else◌, Bool, true, false, not, ◌&&◌,
  ℕ, zero, suc, ◌+◌, Option, none, some,
}
use Prim.Native.String.{◌++◌ as ◌++s◌}
use salus_telemetry_envoy.Scanner.{scan_lines}
use salus_telemetry_envoy.Common.Assoc.{Assoc, lookup}
use salus_telemetry_envoy.Common.Result.{
  Result, ok, err, Error, message, exit_error, wrap_err, is_ok, ◌>>=◌, ◌>>◌,
}
use salus_telemetry_envoy.Protocol.{
  AgentType, agent_eq, EnvoyInstructionTestMonitor, NameTagValueMetric, TestMonitorResults,
}
use salus_telemetry_envoy.Agents.Convert.{
  Codec, Value, tree, seconds, convert_json_to_telegraf_toml,
}
use salus_telemetry_envoy.Agents.Runner.{
  Kind, telegraf_runner, filebeat_runner, packages_runner, oracle_runner, Runner,
}
use salus_telemetry_envoy.Agents.Router.{Router}
use salus_telemetry_envoy.Lineproto.{InfluxLine, parse_influx_line_protocol_metrics}

abbrev pub keep_lines : (List ℕ → Bool) → List (List ℕ) → List ℕ
keep_lines keep [] = []
keep_lines keep (l ∷ ls) = if keep l then l ++ (b'\n' ∷ keep_lines keep ls) else keep_lines keep ls

unfoldable pub filter_lines : (List ℕ → Bool) → List ℕ → List ℕ
unfolding scan_lines
filter_lines keep content = keep_lines keep (scan_lines [] content)

-- strings.HasPrefix(line, "> ")
abbrev pub is_metric_line : List ℕ → Bool
is_metric_line (a ∷ b ∷ rest) = a == b'>' && b == b' '
is_metric_line _ = false

-- What the two agents' commands and the libraries give: the output of the n-th run of telegraf,
-- and that of the package agent with its arguments; the parser of its metrics; err.Error().
pub record Console (Float : Type 0) : Type 0 where
  pub listen : Result (Unit {0})
  pub run_telegraf : ℕ → List ℕ → Result (List ℕ)
  pub run_packages : List String → Result (List ℕ)
  pub server_errors : List Error
  pub parse : List ℕ → Result (List (InfluxLine Float))
  pub of_uint : ℕ → Float
  pub error_text : Error → String

abbrev pub format_bool : Bool → String
format_bool true = "true"
format_bool false = "false"

abbrev pub is_decisive : Result (List ℕ) → Bool
is_decisive (ok []) = false
is_decisive _ = true

-- The retry loop: `k` attempts are left, the next is the n-th.
unfoldable pub retry : ℕ → ℕ → (ℕ → Result (List ℕ)) → Result (List ℕ) → Result (List ℕ)
retry zero n run last = last
retry (suc k) n run last = elim (is_decisive (run n)) [
  | true ↦ run n
  | false ↦ retry k (n + 1) run (run n)
]

abbrev pub telegraf_max_test_monitor_retries : ℕ
telegraf_max_test_monitor_retries = 3

module _ (codec : Codec) (console : Console codec.Float) where
  open codec use {Tree, Float, decode, get_bool}
  open console use {listen, run_telegraf, run_packages, server_errors, parse, of_uint, error_text}

  -- A command's error: exec.ExitError has the message and what was written to stderr.
  abbrev pub command_errors : Error → List String
  command_errors (exit_error m stderr) =
      (if m == "signal: killed" then "Command took too long to run" else "Command failed: " ++s m)
      ∷ ("Command failed with error output: " ++s stderr)
      ∷ []
  command_errors e = ("Command failed: " ++s error_text e) ∷ []

  abbrev pub parsed_results :
      String → Result (List (NameTagValueMetric Float)) → TestMonitorResults Float
  parsed_results id (ok ms) = record { correlation_id = id; errors = []; metrics = ms }
  parsed_results id (err e) = record {
    correlation_id = id;
    errors = ("Failed to parse telegraf output: " ++s error_text e) ∷ [];
    metrics = [];
  }

  abbrev pub command_results : String → Result (List ℕ) → TestMonitorResults Float
  command_results id (err e) = record {
    correlation_id = id;
    errors = command_errors e;
    metrics = [];
  }
  command_results id (ok out) =
      parsed_results id (parse_influx_line_protocol_metrics of_uint parse out)

  abbrev pub server_texts : List Error → List String
  server_texts [] = []
  server_texts (e ∷ es) = ("ConfigServer: " ++s error_text e) ∷ server_texts es

  abbrev pub with_server_errors : TestMonitorResults Float → TestMonitorResults Float
  with_server_errors r = record r { errors = r.errors ++ server_texts server_errors }

  unfoldable pub telegraf_test_monitor : String → String → Result (TestMonitorResults Float)
  unfolding retry
  telegraf_test_monitor id content = do
    toml ←
        wrap_err "failed to convert config content"
          (convert_json_to_telegraf_toml codec content [] 0)
    wrap_err "couldn't create http listener" listen
    ok (
        with_server_errors (
          command_results id
            (retry telegraf_max_test_monitor_retries 0 (λ n. run_telegraf n toml) (ok []))))

  abbrev pub bool_or : Bool → Option Bool → Bool
  bool_or d none = d
  bool_or d (some b) = b

  abbrev pub bool_value : Bool → Option (Value Tree Float) → Bool
  bool_value d (some (tree t)) = bool_or d (get_bool t)
  bool_value d _ = d

  abbrev pub field_of :
      String → Option (Assoc String (Value Tree Float)) → Option (Value Tree Float)
  field_of k none = none
  field_of k (some m) = lookup k m

  -- getBoolFromConfigMap; a nil map has no field
  unfoldable pub get_bool_from_config_map :
      Option (Assoc String (Value Tree Float)) → String → Bool → Bool
  get_bool_from_config_map m k d = bool_value d (field_of k m)

  unfoldable pub packages_test_monitor : String → String → Result (TestMonitorResults Float)
  unfolding filter_lines get_bool_from_config_map
  packages_test_monitor id content = do
    m ← decode content
    output ← run_packages (
        "--line-protocol-to-console"
        ∷ "--include-rpm"
        ∷ format_bool (get_bool_from_config_map m "include-rpm" false)
        ∷ "--include-debian"
        ∷ format_bool (get_bool_from_config_map m "include-debian" false)
        ∷ [])
    ms ← parse_influx_line_protocol_metrics of_uint parse (filter_lines is_metric_line output)
    ok (record { correlation_id = id; errors = []; metrics = ms })

  abbrev pub test_monitor_of : Kind → String → String → Result (TestMonitorResults Float)
  test_monitor_of telegraf_runner id content = telegraf_test_monitor id content
  test_monitor_of packages_runner id content = packages_test_monitor id content
  test_monitor_of oracle_runner id content =
      err (message "Test monitor not supported by oracle agent")
  test_monitor_of filebeat_runner id content =
      err (message "Test monitor not supported by filebeat agent")

  -- an error is a shorthand for results with only errors
  abbrev pub or_error_results :
      String → Result (TestMonitorResults Float) → TestMonitorResults Float
  or_error_results id (ok r) = r
  or_error_results id (err e) = record {
    correlation_id = id;
    errors = error_text e ∷ [];
    metrics = [];
  }

  abbrev pub test_monitor_at :
      Option Runner → EnvoyInstructionTestMonitor → Option (TestMonitorResults Float)
  test_monitor_at none i = none
  test_monitor_at (some r) i =
      some (or_error_results i.correlation_id (test_monitor_of r.kind i.correlation_id i.content))

  -- nil for an unknown agent
  unfoldable pub process_test_monitor :
      EnvoyInstructionTestMonitor → Router → Option (TestMonitorResults Float)
  unfolding telegraf_test_monitor packages_test_monitor
  process_test_monitor i ar = test_monitor_at (lookup i.agent_type ar.runners) i
