-- ===== src/Config/Labels.antt =====
-- config/labels.go.
pub mod Origin
use salus_telemetry_envoy.Common.{
  string_eq, List, [], ◌∷◌, String, if◌then◌else◌, Bool, false, not, ◌||◌,
}
use Prim.Native.String.{◌++◌ as ◌++s◌}
use text.Mathlib.Text.{starts_with}
use salus_telemetry_envoy.Common.Assoc.{Assoc, lookup, insert}
use salus_telemetry_envoy.Common.Result.{Result, ok, err, message, wrap_err, ◌>>=◌, ◌>>◌}
use salus_telemetry_envoy.Config.Host.{
  System, discovered_label, get_xen_id, get_system_serial_number, get_bios_data,
}

abbrev pub Labels : Type 0
Labels = Assoc String String

abbrev pub system_prefixes : List String
system_prefixes = "discovered" ∷ []

abbrev pub has_system_prefix : List String → String → Bool
has_system_prefix [] label = false
has_system_prefix (p ∷ rest) label = starts_with label (p ++s "_") || has_system_prefix rest label

unfoldable pub validate_user_label_name : String → Bool
validate_user_label_name label = not (has_system_prefix system_prefixes label)

-- A label that could not be determined is left out.
abbrev pub insert_ok : String → Result String → Labels → Labels
insert_ok k (ok v) m = insert k v m
insert_ok k (err e) m = m

abbrev pub insert_all : Labels → Labels → Labels
insert_all [] m = m
insert_all ((k, v) ∷ rest) m = insert_all rest (insert k v m)

abbrev pub insert_bios : Result Labels → Labels → Labels
insert_bios (ok b) m = insert_all b m
insert_bios (err e) m = m

unfoldable pub discovered : System → String → Labels
discovered sys hostname = insert_bios (get_bios_data sys) (
    insert_ok (discovered_label "serial") (get_system_serial_number sys) (
      insert_ok (discovered_label "xen_id") (get_xen_id sys) (
        insert (discovered_label "hostname") hostname (
          insert (discovered_label "arch") sys.goarch
            (insert (discovered_label "os") sys.goos [])))))

-- The loop over the configured labels.
unfoldable pub add_configured : Labels → Labels → Result Labels
unfolding validate_user_label_name
add_configured [] m = ok m
add_configured ((k, v) ∷ rest) m =
    let more = add_configured rest (insert k v m) in
    if validate_user_label_name k
    then more
    else err (message ("configured label '" ++s (k ++s "' conflicts with a system prefix")))

unfoldable pub compute_labels : System → Labels → Result Labels
compute_labels sys configured = do
  hostname ← wrap_err "unable to determine hostname label" sys.hostname
  add_configured configured (discovered sys hostname)
