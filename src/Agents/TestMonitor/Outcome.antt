-- ===== src/Agents/TestMonitor/Outcome.antt =====
-- What the results of a test monitor say.
use salus_telemetry_envoy.Common.{
  nat_eq, string_eq, texts_eq, List, [], ◌∷◌, String, arith, ◌≡◌, ◌≢◌, refl, sym, ℕ, some,
}
use salus_telemetry_envoy.Common.Assoc.{lookup}
use mathlib.Core.Path.{subst}
use salus_telemetry_envoy.Common.Result.{
  ok_inj, Result, ok, err, Error, os_error, message, wrap, no_applied_configs, exit_error, wrap_err,
  ◌>>=◌,
}
use salus_telemetry_envoy.Protocol.{
  EnvoyInstructionTestMonitor, agent_eq, TestMonitorResults, NameTagValueMetric,
}
use salus_telemetry_envoy.Agents.Convert.{Codec, convert_json_to_telegraf_toml}
use salus_telemetry_envoy.Agents.Runner.{
  Kind, telegraf_runner, packages_runner, oracle_runner, filebeat_runner, Runner,
}
use salus_telemetry_envoy.Agents.Router.{Router}
use salus_telemetry_envoy.Lineproto.{parse_influx_line_protocol_metrics}
use salus_telemetry_envoy.Agents.TestMonitor.{
  Console, retry, telegraf_test_monitor, packages_test_monitor, process_test_monitor,
  test_monitor_of, or_error_results, server_texts, parsed_results, command_results,
  with_server_errors, telegraf_max_test_monitor_retries,
}

module _ (codec : Codec) (console : Console codec.Float) where
  packages-correlation :
      (id content : String) (r : TestMonitorResults codec.Float)
      → packages_test_monitor codec console id content ≡ ok r
      → r.correlation_id ≡ id
  unfolding packages_test_monitor
  packages-correlation id content r h = ground arith

  command_results-correlation :
      (id : String) (res : Result (List ℕ))
      → (command_results codec console id res).correlation_id ≡ id
  command_results-correlation id (err e) = refl
  command_results-correlation id (ok out) = ground arith

  telegraf-correlation :
      (id content : String) (r : TestMonitorResults codec.Float)
      → telegraf_test_monitor codec console id content ≡ ok r
      → r.correlation_id ≡ id
  unfolding telegraf_test_monitor
  telegraf-correlation id content r h =
      ground (arith, λ (res : Result (List ℕ)). command_results-correlation id res)

  kind-correlation :
      (k : Kind) (id content : String) (r : TestMonitorResults codec.Float)
      → test_monitor_of codec console k id content ≡ ok r
      → r.correlation_id ≡ id
  kind-correlation telegraf_runner id content r h = telegraf-correlation id content r h
  kind-correlation packages_runner id content r h = packages-correlation id content r h
  kind-correlation oracle_runner id content r h = absurd (cc h)
  kind-correlation filebeat_runner id content r h = absurd (cc h)

  or_error_results-correlation :
      (id : String) (res : Result (TestMonitorResults codec.Float))
      → ((r : TestMonitorResults codec.Float) → res ≡ ok r → r.correlation_id ≡ id)
      → (or_error_results codec console id res).correlation_id ≡ id
  or_error_results-correlation id (ok r) h = h r refl
  or_error_results-correlation id (err e) h = refl

  -- For an agent with a runner the router always has results, on every error too, and they carry
  -- the correlation id of the instruction.
  pub process_test_monitor-correlation :
      (i : EnvoyInstructionTestMonitor) (ar : Router) (runner : Runner)
      → lookup i.agent_type ar.runners ≡ some runner
      → (r : TestMonitorResults codec.Float) × (process_test_monitor codec console i ar ≡ some r)
        × (r.correlation_id ≡ i.correlation_id)
  unfolding process_test_monitor
  process_test_monitor-correlation i ar runner h = rw h (
    _,
    refl,
    or_error_results-correlation i.correlation_id _
        (kind-correlation runner.kind i.correlation_id i.content),
  )

  -- What results without an error rest on.
  pub record IsClean (res : Result (List ℕ)) (r : TestMonitorResults codec.Float) : Type 0 where
    pub output : List ℕ
    pub ran : res ≡ ok output
    pub parsed :
        parse_influx_line_protocol_metrics console.of_uint console.parse output ≡ ok r.metrics
    pub served : console.server_errors ≡ []

  errors_of_err :
      (id : String) (e : Error)
      → (with_server_errors codec console (command_results codec console id (err e))).errors ≢ []
  errors_of_err id (os_error x) h = cc h
  errors_of_err id (message m) h = cc h
  errors_of_err id (wrap m e) h = cc h
  errors_of_err id no_applied_configs h = cc h
  errors_of_err id (exit_error m s) h = cc h

  server_texts_nil : (es : List Error) → server_texts codec console es ≡ [] → es ≡ []
  server_texts_nil [] h = refl
  server_texts_nil (e ∷ es) h = absurd (cc h)

  parsed-IsClean :
      (id : String) (out : List ℕ) (p : Result (List (NameTagValueMetric codec.Float)))
      → parse_influx_line_protocol_metrics console.of_uint console.parse out ≡ p
      → (with_server_errors codec console (parsed_results codec console id p)).errors ≡ []
      → IsClean (ok out) (with_server_errors codec console (parsed_results codec console id p))
  parsed-IsClean id out (ok ms) e h = record {
    output = out;
    ran = refl;
    parsed = e;
    served = server_texts_nil console.server_errors h;
  }
  parsed-IsClean id out (err x) e h = absurd (cc h)

  command-IsClean :
      (id : String) (res : Result (List ℕ))
      → (with_server_errors codec console (command_results codec console id res)).errors ≡ []
      → IsClean res (with_server_errors codec console (command_results codec console id res))
  command-IsClean id (err e) h = absurd (errors_of_err id e h)
  command-IsClean id (ok out) h = parsed-IsClean id out _ refl h

  -- Results of telegraf's test monitor that list no error have the metrics parsed from the output
  -- of a run without an error, and the configuration server met no error.
  pub telegraf_test_monitor-IsClean :
      (id content : String) (r : TestMonitorResults codec.Float)
      → telegraf_test_monitor codec console id content ≡ ok r
      → r.errors ≡ []
      → (toml : List ℕ) × (convert_json_to_telegraf_toml codec content [] 0 ≡ ok toml)
        × IsClean
            (retry telegraf_max_test_monitor_retries 0 (λ n. console.run_telegraf n toml) (ok []))
            r
  unfolding telegraf_test_monitor
  telegraf_test_monitor-IsClean id content r =
      converted (convert_json_to_telegraf_toml codec content [] 0) refl console.listen
    where
      converted :
          (c : Result (List ℕ))
          → convert_json_to_telegraf_toml codec content [] 0 ≡ c
          → (l : Result (Unit {0}))
          → (wrap_err "failed to convert config content" c >>= λ toml.
              wrap_err "couldn't create http listener" l >>= λ u. ok (
                with_server_errors codec console (
                  command_results codec console id (
                    retry telegraf_max_test_monitor_retries 0
                      (λ n. console.run_telegraf n toml)
                      (ok [])))))
            ≡ ok r
          → r.errors ≡ []
          → (toml : List ℕ) × (c ≡ ok toml)
            × IsClean
                (retry telegraf_max_test_monitor_retries 0
                  (λ n. console.run_telegraf n toml)
                  (ok []))
                r
      converted (err x) e l h n = absurd (cc h)
      converted (ok toml) e (err x) h n = absurd (cc h)
      converted (ok toml) e (ok u) h n =
          let q = ok_inj h in
          (
            toml,
            refl,
            subst (IsClean _) q (command-IsClean id _ (subst (λ x. x.errors ≡ []) (sym q) n)),
          )
