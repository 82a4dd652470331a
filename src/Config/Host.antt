-- ===== src/Config/Host.antt =====
-- config/xen.go, config/bios.go and config/serial.go. A command that the code runs is its output,
-- or its error; strings.TrimSpace and strings.ToLower are in `tidy`.
use salus_telemetry_envoy.Common.{
  ◌==◌, nat_eq, string_eq, texts_eq, List, [], ◌∷◌, String, if◌then◌else◌, Bool, ◌||◌,
}
use Prim.Native.String.{◌++◌ as ◌++s◌}
use salus_telemetry_envoy.Common.Assoc.{Assoc, insert}
use salus_telemetry_envoy.Common.Result.{Result, ok, err, message, wrap_err, ◌>>=◌}

-- runtime.GOOS, and what the commands and files of the host give.
pub record System : Type 0 where
  pub goos : String
  pub goarch : String
  pub hostname : Result String
  -- exec.Command(name, args...).Output()
  pub output : List String → Result String
  -- ioutil.ReadFile
  pub read_file : String → Result String
  -- whether os.Stat gives no error
  pub stat_ok : String → Bool
  -- strings.ToLower(strings.TrimSpace(s))
  pub tidy : String → String

abbrev pub powershell : String → List String
powershell command = "powershell" ∷ command ∷ []

abbrev pub discovered_label : String → String
discovered_label label = "discovered" ++s ("_" ++s label)

abbrev pub xenstore_client : String
xenstore_client = "c:\\Program Files\\Citrix\\XenTools\\xenstore_client.exe"

-- The query that powershell runs where the client is not installed.
abbrev pub xenstore_query : List String
xenstore_query =
    "powershell"
    ∷ ("& {$sid = ((Get-WmiObject -Class CitrixXenStoreBase -Namespace root\\wmi)"
        ++s (".AddSession(\"Temp\").SessionId) ; $s = (Get-WmiObject -Namespace root\\wmi -Query "
            ++s ("\"select * from CitrixXenStoreSession where SessionId=$sid\") ; $v = $s.GetValue(\"name\").value ;"
                ++s "$s.EndSession() ; $v}")))
    ∷ "read"
    ∷ "name"
    ∷ []

abbrev pub or_else : Result String → Result String → Result String
or_else (ok s) b = ok s
or_else (err e) b = b

abbrev pub bios_labels : String → String → Assoc String String
bios_labels vendor version =
    insert (discovered_label "bios_version") version
      (insert (discovered_label "bios_vendor") vendor [])

module _ (sys : System) where
  open sys use {goos, output, read_file, stat_ok, tidy}

  unfoldable pub get_xen_id_from_cloud_init : Result String
  get_xen_id_from_cloud_init =
      if goos == "windows" then err (message "cloud init is not supported on windows") else do
        raw ←
            wrap_err "failed to read from instance id path"
              (read_file "/var/lib/cloud/data/instance-id")
        let xen_id = tidy raw
        if xen_id == "iid-datasource-none" || xen_id == "nocloud"
            then err (message "invalid instance id found")
            else ok xen_id

  unfoldable pub get_xen_id_from_xen_client : Result String
  get_xen_id_from_xen_client = do
    raw ←
        if goos == "linux"
        then output ("xenstore-read" ∷ "name" ∷ [])
        else if goos == "windows"
        then (if stat_ok xenstore_client
            then output (xenstore_client ∷ "name" ∷ [])
            else output xenstore_query)
        else err (message ("no xen id found on os with type " ++s goos))
    ok (tidy raw)

  unfoldable pub get_xen_id : Result String
  unfolding get_xen_id_from_cloud_init get_xen_id_from_xen_client
  get_xen_id = or_else get_xen_id_from_cloud_init get_xen_id_from_xen_client

  unfoldable pub get_system_serial_number : Result String
  get_system_serial_number = do
    raw ←
        if goos == "linux"
        then output ("dmidecode" ∷ "-s" ∷ "system-serial-number" ∷ [])
        else if goos == "windows"
        then output (powershell "(Get-WmiObject win32_bios).SerialNumber")
        else err (message ("no serial number found on os with type " ++s goos))
    ok (tidy raw)

  unfoldable pub get_linux_bios_data : Result (Assoc String String)
  get_linux_bios_data = do
    vendor ← output ("dmidecode" ∷ "-s" ∷ "bios-vendor" ∷ [])
    version ← output ("dmidecode" ∷ "-s" ∷ "bios-version" ∷ [])
    ok (bios_labels (tidy vendor) (tidy version))

  unfoldable pub get_windows_bios_data : Result (Assoc String String)
  get_windows_bios_data = do
    vendor ← output (powershell "(Get-WmiObject win32_bios).Manufacturer")
    version ← output (powershell "(Get-WmiObject win32_bios).SMBIOSBIOSVersion")
    ok (bios_labels (tidy vendor) (tidy version))

  unfoldable pub get_bios_data : Result (Assoc String String)
  unfolding get_linux_bios_data get_windows_bios_data
  get_bios_data =
      if goos == "linux"
      then get_linux_bios_data
      else if goos == "windows"
      then get_windows_bios_data
      else err (message ("no bios data found on os with type " ++s goos))
