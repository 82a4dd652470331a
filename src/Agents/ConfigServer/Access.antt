-- ===== src/Agents/ConfigServer/Access.antt =====
-- Who gets a configuration from the servers.
use salus_telemetry_envoy.Common.{
  ◌==◌, nat_eq, string_eq, texts_eq, eq_self, ◌++◌, List, [], ◌∷◌, String, Bool, true, false, arith,
  ◌≡◌, ◌≢◌, ◌⊎◌, inl, inr, refl, ℕ, ◌<◌, Option,
}
use salus_telemetry_envoy.Common.Result.{Error}
use salus_telemetry_envoy.Paths.{FilePath}
use salus_telemetry_envoy.Agents.Files.{returned, map_run}
use salus_telemetry_envoy.Agents.Telegraf.{Configs, Memory, concat_configs}
use salus_telemetry_envoy.Agents.ConfigServer.{
  Request, Response, ServeMux, written, authorization_of, ConfigServer, pattern_of, url_of, serve,
  serve_test, Command, token_env, agent_command, test_command, write_errors, config_handler,
  test_config_handler, unauthorized,
}

-- Go documents of a pattern with no slash at its end that it fits its own path only; another path
-- is answered by a redirect or NotFound.
pub record IsExact (mux : ServeMux) (id : String) : Type 0 where
  pub matches : (path : String) → mux.matches (pattern_of id) path ≡ (path == pattern_of id)
  pub not_found : (r : Request) → (mux.not_found r).status ≢ 200

-- telegraf's documented use of --config and of INFLUX_TOKEN: it asks for the path of the URL, with
-- the token of its environment.
pub record Client : Type 0 where
  pub config_arg : List String → String
  pub url_path : String → String
  pub getenv : List String → String → String

abbrev pub request_of : Client → Command → Request
request_of c cmd = record {
  path = c.url_path (c.config_arg cmd.args);
  authorization = authorization_of (c.getenv cmd.env "INFLUX_TOKEN");
}

-- The argument after --config, the path of a URL of this server, and the last value of a variable.
pub record IsClient (c : Client) (environ : List String) (host_port id token : String)
    : Type 0 where
  pub config_arg : c.config_arg ("--config" ∷ url_of host_port id ∷ []) ≡ url_of host_port id
  pub test_config_arg :
      c.config_arg ("--test" ∷ "--config" ∷ url_of host_port id ∷ []) ≡ url_of host_port id
  pub url_path : c.url_path (url_of host_port id) ≡ pattern_of id
  pub getenv : c.getenv (environ ++ token_env token ∷ []) "INFLUX_TOKEN" ≡ token

pub record HasAccess (id token : String) (r : Request) : Type 0 where
  pub path : r.path ≡ pattern_of id
  pub authorization : r.authorization ≡ authorization_of token

-- The process of telegraf gets the main configuration with the bodies of the current
-- configurations; and a request gets no page with status 200 unless it names the path and the token
-- that Load made.
pub serve-HasAccess :
    (beyond : Memory) (mux : ServeMux) (s : ConfigServer) (configs : Configs) (c : Client)
    (environ : List String) (base : FilePath) (r : Request)
    → IsExact mux s.id
    → IsClient c environ s.host_port s.id s.token
    → (serve beyond mux s configs (request_of c (agent_command environ base s))
        ≡ map_run written (concat_configs beyond s.main_config configs))
      × (HasAccess s.id s.token r
          ⊎ ((a : Response) × (serve beyond mux s configs r ≡ returned a) × (a.status ≢ 200)))
unfolding serve config_handler agent_command unauthorized
serve-HasAccess beyond mux s configs c environ base r x k = (own_request, access (x.matches r.path))
  where
    own_request :
        serve beyond mux s configs (request_of c (agent_command environ base s))
        ≡ map_run written (concat_configs beyond s.main_config configs)
    own_request =
        rw
          (
            k.config_arg,
            k.url_path,
            k.getenv,
            x.matches (pattern_of s.id),
            eq_self (pattern_of s.id),
            eq_self (authorization_of s.token),
          )
          refl

    by_tests :
        (p q : Bool)
        → (r.path == pattern_of s.id) ≡ p
        → (r.authorization == authorization_of s.token) ≡ q
        → mux.matches (pattern_of s.id) r.path ≡ p
        → HasAccess s.id s.token r
          ⊎ ((a : Response) × (serve beyond mux s configs r ≡ returned a) × (a.status ≢ 200))
    by_tests true true e f m = inl (record {
      path = (string_eq.same_iff _ _).0 e;
      authorization = (string_eq.same_iff _ _).0 f;
    })
    by_tests true false e f m = inr (unauthorized, rw (m, f) refl, λ y. absurd (omega (arith, y)))
    by_tests false q e f m = inr (mux.not_found r, rw m refl, x.not_found r)

    access :
        mux.matches (pattern_of s.id) r.path ≡ (r.path == pattern_of s.id)
        → HasAccess s.id s.token r
          ⊎ ((a : Response) × (serve beyond mux s configs r ≡ returned a) × (a.status ≢ 200))
    access m = by_tests _ _ refl refl m

-- telegraf's test run gets the configuration under test and has a time limit if the configured one
-- is positive; and a request gets no page with status 200, and makes the server report no error,
-- unless it names the path and the token that were made for the test.
pub serve_test-HasAccess :
    (mux : ServeMux) (id token : String) (toml : List ℕ) (failed : Option Error) (c : Client)
    (environ : List String) (base : FilePath) (default timeout : ℕ) (host_port : String)
    (r : Request)
    → IsExact mux id
    → IsClient c environ host_port id token
    → 0 < default
    → (serve_test mux id token toml failed
          (request_of c (test_command environ base default timeout host_port id token).0)
        ≡ (written toml, write_errors failed))
      × (0 < (test_command environ base default timeout host_port id token).1)
      × (HasAccess id token r
          ⊎ (((serve_test mux id token toml failed r).0.status ≢ 200)
              × ((serve_test mux id token toml failed r).1 ≡ [])))
unfolding serve_test test_config_handler test_command unauthorized
serve_test-HasAccess mux id token toml failed c environ base default timeout host_port r x k d =
    (own_request, ground arith, access)
  where
    own_request :
        serve_test mux id token toml failed
          (request_of c (test_command environ base default timeout host_port id token).0)
        ≡ (written toml, write_errors failed)
    own_request =
        rw
          (
            k.test_config_arg,
            k.url_path,
            k.getenv,
            x.matches (pattern_of id),
            eq_self (pattern_of id),
            eq_self (authorization_of token),
          )
          refl

    access :
        HasAccess id token r
        ⊎ (((serve_test mux id token toml failed r).0.status ≢ 200)
            × ((serve_test mux id token toml failed r).1 ≡ []))
    access = ground (
      arith,
      x.matches r.path,
      string_eq.same_iff r.path (pattern_of id),
      string_eq.same_iff r.authorization (authorization_of token),
      x.not_found r,
    )
