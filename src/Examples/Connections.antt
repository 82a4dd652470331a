-- ===== src/Examples/Connections.antt =====
-- The theorems on connections at concrete inputs.
use salus_telemetry_envoy.Common.{
  List, nat_eq, string_eq, texts_eq, [], ◌∷◌, String, true, false, ◌≡◌, refl, ℕ, some,
}
use salus_telemetry_envoy.Common.Result.{ok, err, message, Error}
use salus_telemetry_envoy.Config.Host.{System}
use salus_telemetry_envoy.Common.Texts.{contains}
use salus_telemetry_envoy.Ambassador.Connecting
use salus_telemetry_envoy.Ambassador.Connecting.{Attempt, expired_reload_panics}
use salus_telemetry_envoy.Agents.Files.{panicked}
use salus_telemetry_envoy.Protocol.{AgentType, telegraf}
use salus_telemetry_envoy.Ambassador.Egress.{Connection}

-- A host whose only label besides the platform is its name.
abbrev pub bare_system : System
bare_system = record {
  goos = "solaris";
  goarch = "amd64";
  hostname = ok "h1";
  output = λ c. err (message "not found");
  read_file = λ p. err (message "not found");
  stat_ok = λ p. false;
  tidy = λ s. s;
}

abbrev connection : Connection ℕ
connection = record {
  envoy_id = "";
  resource_id = "r1";
  labels =
      ("discovered_os", "solaris")
      ∷ ("discovered_arch", "amd64")
      ∷ ("discovered_hostname", "h1")
      ∷ [];
  tls = some 1;
  has_detach_chan = true;
  attached = false;
}

-- The first attempt finds an expired certificate, and the second ends its session.
abbrev attempts : List (Attempt ℕ)
attempts =
    record {
      grpc_dial = λ o. err (message "tls: expired certificate");
      attach_envoy = λ summary. ok tt;
      left_attached = false;
      envoy_id = "e1";
      next_id = "e2";
      gives_up = false;
      loaded = ok 7;
    }
    ∷ record {
      grpc_dial = λ o. ok tt;
      attach_envoy = λ summary. ok tt;
      left_attached = false;
      envoy_id = "e3";
      next_id = "e4";
      gives_up = true;
      loaded = ok 8;
    }
    ∷ []

abbrev address : String
address = "localhost:6565"

abbrev zone : String
zone = "public/us"

abbrev agents : List AgentType
agents = telegraf ∷ []

abbrev resource : String
resource = "r1"

abbrev error_texts : Error → String
error_texts e = "tls: expired certificate"

-- The certificate has expired, and its token is rejected by the auth service.
abbrev unloadable : Attempt ℕ
unloadable = record {
  grpc_dial = λ o. err (message "tls: expired certificate");
  attach_envoy = λ summary. ok tt;
  left_attached = false;
  envoy_id = "e1";
  next_id = "e2";
  gives_up = false;
  loaded = err (message "token rejected");
}

expired_reload_panics_example :
    Connecting.start address zone agents error_texts false 0
      (unloadable ∷ unloadable ∷ [])
      connection
    ≡ panicked
expired_reload_panics_example =
    expired_reload_panics address zone agents error_texts false 0 unloadable unloadable []
      connection 1 (message "tls: expired certificate") (message "tls: expired certificate")
      (message "token rejected") refl refl refl refl found refl refl
  where
    found : contains "tls: expired certificate" "tls: expired certificate" ≡ true
    found = unfold contains in refl
