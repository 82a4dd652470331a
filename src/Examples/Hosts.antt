-- ===== src/Examples/Hosts.antt =====
-- The theorems on labels and listeners at concrete inputs.
use salus_telemetry_envoy.Common.{
  nat_eq, string_eq, texts_eq, [], ◌∷◌, String, if◌then◌else◌, false, ◌≡◌, refl, none, some,
}
use salus_telemetry_envoy.Common.Assoc.{Assoc, lookup, insert}
use salus_telemetry_envoy.Common.Result.{Result, ok, err, message, os_error, not_exist}
use salus_telemetry_envoy.Config.Host.{System, get_bios_data, get_xen_id, get_system_serial_number}
use salus_telemetry_envoy.Config.Labels.{
  add_configured, compute_labels, discovered, validate_user_label_name,
}
use salus_telemetry_envoy.Config.Labels.Origin.{configured_value, lookup-compute_labels}
use salus_telemetry_envoy.Config.Listeners.{HostPort}

-- A Linux host without any of the tools.
abbrev plain_system : System
plain_system = record {
  goos = "linux";
  goarch = "amd64";
  hostname = ok "h1";
  output = λ c. err (message "not found");
  read_file = λ p. err (os_error not_exist);
  stat_ok = λ p. false;
  tidy = λ s. s;
}

abbrev plain_labels : Assoc String String
plain_labels =
    ("discovered_os", "linux")
    ∷ ("discovered_arch", "amd64")
    ∷ ("discovered_hostname", "h1")
    ∷ ("env", "prod")
    ∷ []

plain_labels_computed : compute_labels plain_system (("env", "prod") ∷ []) ≡ ok plain_labels
unfolding compute_labels discovered add_configured get_bios_data get_xen_id get_system_serial_number
    insert
plain_labels_computed = refl

lookup-compute_labels_example :
    (hostname : String) × (◌≡◌ {A = Result String} (ok "h1") (ok hostname))
    × (lookup "env" plain_labels ≡ (
        if validate_user_label_name "env"
        then configured_value "env" (("env", "prod") ∷ []) none
        else lookup "env" (discovered plain_system hostname)))
lookup-compute_labels_example =
    lookup-compute_labels plain_system (("env", "prod") ∷ []) plain_labels "env"
      plain_labels_computed

abbrev toy_net : HostPort
toy_net = record { split = λ a. some ("0.0.0.0", "8094"); join = λ h p. h }
