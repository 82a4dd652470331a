-- ===== src/Agents/ConfigServer.antt =====
-- The HTTP servers of agents/telegraf.go and agents/telegraf_test_config_runner.go, from which
-- telegraf takes its configuration, and the commands that tell it where. An HTTP server, the
-- client in telegraf and Go's ServeMux are parameters.
pub mod Access
use salus_telemetry_envoy.Common.{
  ◌==◌, nat_eq, string_eq, ◌++◌, List, [], ◌∷◌, String, if◌then◌else◌, Bool, ℕ, Option, none, some,
}
use Prim.Native.String.{◌++◌ as ◌++s◌}
use salus_telemetry_envoy.Common.Bytes
use salus_telemetry_envoy.Common.Result.{Result, ok, err, Error, wrap, wrap_err, ◌>>=◌}
use salus_telemetry_envoy.Paths.{FilePath}
use salus_telemetry_envoy.Agents.Files.{Run, returned, panicked, map_run}
use salus_telemetry_envoy.Agents.Telegraf.{Configs, Memory, concat_configs}

pub record Request : Type 0 where
  pub path : String
  pub authorization : String

pub record Response : Type 0 where
  pub status : ℕ
  pub body : List ℕ

-- http.ServeMux: whether a pattern fits a path, and what a path that fits none gets.
pub record ServeMux : Type 0 where
  pub matches : String → String → Bool
  pub not_found : Request → Response

-- http.Error
unfoldable pub unauthorized : Response
unauthorized = record { status = 401; body = Bytes.of "unauthorized\n" }

abbrev pub written : List ℕ → Response
written page = record { status = 200; body = page }

-- What GetHeader is compared with.
abbrev pub authorization_of : String → String
authorization_of token = "Token " ++s token

-- configServerHandler
unfoldable pub config_handler : String → Run (List ℕ) → Request → Run Response
config_handler token page r =
    if r.authorization == authorization_of token
    then map_run written page
    else returned unauthorized

abbrev pub write_errors : Option Error → List Error
write_errors none = []
write_errors (some e) = wrap "failed to write config TOML response" e ∷ []

-- The handler of StartTestConfigServer, with what it sends to configServerErrors if the response
-- cannot be written.
unfoldable pub test_config_handler :
    String → List ℕ → Option Error → Request → Response × List Error
test_config_handler token toml failed r =
    if r.authorization == authorization_of token
    then (written toml, write_errors failed)
    else (unauthorized, [])

-- What Load keeps of the server, with the main configuration.
pub record ConfigServer : Type 0 where
  pub id : String
  pub host_port : String
  pub token : String
  pub main_config : List ℕ

abbrev pub pattern_of : String → String
pattern_of id = "/" ++s id

abbrev pub url_of : String → String → String
url_of host_port id = "http://" ++s (host_port ++s pattern_of id)

abbrev pub routed : {A : Type 0} → ServeMux → String → (Response → A) → (Request → A) → Request → A
routed mux id other handler r =
    if mux.matches (pattern_of id) r.path then handler r else other (mux.not_found r)

-- The server of a loaded runner with these configurations.
unfoldable pub serve : Memory → ServeMux → ConfigServer → Configs → Request → Run Response
unfolding config_handler
serve beyond mux s configs =
    routed mux s.id returned (config_handler s.token (concat_configs beyond s.main_config configs))

unfoldable pub serve_test :
    ServeMux → String → String → List ℕ → Option Error → Request → Response × List Error
unfolding test_config_handler
serve_test mux id token toml failed =
    routed mux id (λ r. (r, [])) (test_config_handler token toml failed)

-- An exec.Cmd.
pub record Command : Type 0 where
  pub exe : String
  pub args : List String
  pub dir : FilePath
  pub env : List String

abbrev pub exe_path : String
exe_path = "CURRENT/bin/telegraf"

abbrev pub token_env : String → String
token_env token = "INFLUX_TOKEN=" ++s token

-- The command of telegraf's EnsureRunningState, in this environment.
unfoldable pub agent_command : List String → FilePath → ConfigServer → Command
agent_command environ base s = record {
  exe = exe_path;
  args = "--config" ∷ url_of s.host_port s.id ∷ [];
  dir = base;
  env = environ ++ token_env s.token ∷ [];
}

-- RunCommand's command, and the time that it is given.
unfoldable pub test_command :
    List String → FilePath → ℕ → ℕ → String → String → String → Command × ℕ
test_command environ base default timeout host_port id token = (
  record {
    exe = exe_path;
    args = "--test" ∷ "--config" ∷ url_of host_port id ∷ [];
    dir = base;
    env = environ ++ token_env token ∷ [];
  },
  if timeout == 0 then default else timeout,
)
