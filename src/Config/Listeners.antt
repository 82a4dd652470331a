-- ===== src/Config/Listeners.antt =====
-- config/listeners.go: the addresses that the ingestors register and the agents are told.
use salus_telemetry_envoy.Common.{
  ◌==◌, nat_eq, string_eq, texts_eq, String, if◌then◌else◌, arith, ◌≡◌, Option, none, some,
}
use salus_telemetry_envoy.Common.Assoc.{Assoc, lookup, insert, lookup-insert}
use salus_telemetry_envoy.Agents.Files.{Run, returned, panicked}

-- net.SplitHostPort and net.JoinHostPort, of Go's net package.
pub record HostPort : Type 0 where
  pub split : String → Option (String × String)
  pub join : String → String → String

abbrev pub to_loopback : String → String
to_loopback host = if host == "0.0.0.0" then "127.0.0.1" else host

module _ (net : HostPort) where
  abbrev register :
      String → Option (String × String) → Assoc String String → Run (Assoc String String)
  register name none m = panicked
  register name (some (host, port)) m = returned (insert name (net.join (to_loopback host) port) m)

  -- log.Panic on an address that cannot be split
  unfoldable pub register_listener_address :
      String → String → Assoc String String → Run (Assoc String String)
  register_listener_address name address m = register name (net.split address) m

abbrev or_blank : Option String → String
or_blank none = ""
or_blank (some a) = a

unfoldable pub get_listener_address : String → Assoc String String → String
get_listener_address name m = or_blank (lookup name m)

-- After the registration of an address, GetListenerAddress gives for that name the address with
-- the same port, and the loopback host in place of 0.0.0.0; for other names it is unchanged.
pub get-register_listener_address :
    (net : HostPort) (name other address host port : String) (m m' : Assoc String String)
    → net.split address ≡ some (host, port)
    → register_listener_address net name address m ≡ returned m'
    → get_listener_address other m' ≡ (
        if name == other
        then net.join (if host == "0.0.0.0" then "127.0.0.1" else host) port
        else get_listener_address other m)
unfolding get_listener_address register_listener_address
get-register_listener_address net name other address host port m m' s r =
    ground (arith, lookup-insert name other (net.join (to_loopback host) port) m)
