-- ===== src/Ambassador/Egress.antt =====
-- ambassador/connection.go: creation, dialling, the start of an attachment, and the posts.
pub mod Reload
use salus_telemetry_envoy.Common.{
  ◌==◌, string_eq, List, [], ◌∷◌, String, if◌then◌else◌, Bool, true, false, ◌&&◌, Option, none,
  some,
}
use salus_telemetry_envoy.Common.Texts.{contains}
use salus_telemetry_envoy.Common.Assoc.{Assoc}
use salus_telemetry_envoy.Common.Result.{
  Result, ok, err, Error, os_error, message, wrap, no_applied_configs, exit_error, wrap_err, ◌>>=◌,
  ◌>>◌,
}
use salus_telemetry_envoy.Agents.Files.{Run, returned, panicked, map_run}
use salus_telemetry_envoy.Protocol.{AgentType, NameTagValueMetric, TestMonitorResults}
use salus_telemetry_envoy.Config.Host.{System}
use salus_telemetry_envoy.Config.Labels.{compute_labels}
use salus_telemetry_envoy.Ambassador.Session.{Session, attach_session}

-- `Tls` is a gRPC dial option, and none of it is nil.
pub record Connection (Tls : Type 0) : Type 0 where
  pub envoy_id : String
  pub resource_id : String
  pub labels : Assoc String String
  pub tls : Option Tls
  pub has_detach_chan : Bool
  pub attached : Bool

-- The options of a dial: it blocks and fails on errors that are not temporary. The dialer of
-- NetworkDialOptionCreator takes the network.
pub record DialOptions (Tls : Type 0) : Type 0 where
  pub address : String
  pub transport : Tls
  pub is_blocking : Bool
  pub fails_on_non_temp_error : Bool
  pub network : String

-- What an attachment tells the Ambassador.
pub record EnvoySummary : Type 0 where
  pub supported_agents : List AgentType
  pub labels : Assoc String String
  pub resource_id : String
  pub zone : String

-- The second dial is tried after an error of the first.
abbrev pub or_try : Run (Result (Unit {0})) → Run (Result (Unit {0})) → Run (Result (Unit {0}))
or_try (returned (ok _)) other = returned (ok tt)
or_try (returned (err e)) other = other
or_try panicked other = panicked

-- errors.Cause
abbrev pub cause : Error → Error
cause (os_error e) = os_error e
cause (message m) = message m
cause (wrap m e) = cause e
cause no_applied_configs = no_applied_configs
cause (exit_error m s) = exit_error m s

abbrev pub is_wrapped : Error → Bool
is_wrapped (wrap m e) = true
is_wrapped _ = false

module _ {Tls : Type 0} where
  -- loadTlsDialOption: the certificates are loaded unless TLS is disabled
  unfoldable pub load_tls_dial_option : Bool → Tls → Result Tls → Result Tls
  load_tls_dial_option true insecure loaded = ok insecure
  load_tls_dial_option false insecure loaded = loaded

  unfoldable pub new_egress_connection :
      String
      → Bool
      → Tls
      → Result Tls
      → Bool
      → System
      → Assoc String String
      → Result (Connection Tls)
  unfolding load_tls_dial_option
  new_egress_connection resource_id tls_disabled insecure loaded has_chan sys configured =
      if resource_id == "" then err (message "Envoy configuration is missing resource_id") else do
        tls ← load_tls_dial_option tls_disabled insecure loaded
        labels ← compute_labels sys configured
        ok (record {
          envoy_id = "";
          resource_id = resource_id;
          labels = labels;
          tls = some tls;
          has_detach_chan = has_chan;
          attached = false;
        })

  -- grpc.DialContext applies each of its options, and panics at a nil one.
  unfoldable pub dial_network :
      (DialOptions Tls → Result (Unit {0})) → String → String → Option Tls → Run (Result (Unit {0}))
  dial_network grpc_dial address network none = panicked
  dial_network grpc_dial address network (some tls) = returned (
      grpc_dial (record {
        address = address;
        transport = tls;
        is_blocking = true;
        fails_on_non_temp_error = true;
        network = network;
      }))

  unfoldable pub envoy_summary : List AgentType → String → Connection Tls → EnvoySummary
  envoy_summary agents zone c = record {
    supported_agents = agents;
    labels = c.labels;
    resource_id = c.resource_id;
    zone = zone;
  }

  -- attach up to the loop: both networks are tried, the client is attached, and a session begins.
  unfoldable pub attach :
      (String → Option Tls → Run (Result (Unit {0})))
      → Result (Unit {0})
      → String
      → Connection Tls
      → Run (Result Session) × Connection Tls
  attach dial attach_envoy new_id c =
      let dialled = or_try (dial "tcp6" c.tls) (dial "tcp4" c.tls) in
      (
        map_run
            (λ d.
              wrap_err "failed to dial Ambassador" d
              >> wrap_err "failed to attach Envoy" attach_envoy
              >> ok (attach_session c.attached c.has_detach_chan))
            dialled,
        record c { envoy_id = new_id },
      )

  -- a failed load gives nil
  abbrev pub option_of : Result Tls → Option Tls
  option_of (ok t) = some t
  option_of (err e) = none

  -- The notification of a failed attempt: an expired certificate makes it load the certificates.
  unfoldable pub on_retry :
      (Error → String) → Bool → Tls → Result Tls → Error → Connection Tls → Connection Tls
  unfolding load_tls_dial_option contains
  on_retry error_text tls_disabled insecure loaded e c =
      if is_wrapped e && contains (error_text (cause e)) "tls: expired certificate"
      then record c { tls = option_of (load_tls_dial_option tls_disabled insecure loaded) }
      else c

-- A call of the Ambassador's client.
pub data Call (Float : Type 0) : Type 0 where
  log_event : AgentType → String → Call Float
  metric : NameTagValueMetric Float → Call Float
  test_results : TestMonitorResults Float → Call Float

module _ {Float Tls : Type 0} where
  -- The posts, as the calls that they make; an error of the call is logged.
  unfoldable pub post_log_event : Connection Tls → AgentType → String → List (Call Float)
  post_log_event c t content = if c.attached then log_event t content ∷ [] else []

  unfoldable pub post_metric : Connection Tls → NameTagValueMetric Float → List (Call Float)
  post_metric c m = if c.attached then metric m ∷ [] else []

  unfoldable pub post_test_monitor_results :
      Connection Tls → TestMonitorResults Float → List (Call Float)
  post_test_monitor_results c r = test_results r ∷ []
