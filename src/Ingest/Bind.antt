-- ===== src/Ingest/Bind.antt =====
-- Bind of ingest/lineproto.go, lumberjack.go and telegraf_json.go.
use salus_telemetry_envoy.Common.{
  ◌==◌, nat_eq, string_eq, texts_eq, String, if◌then◌else◌, Bool, true, false, ◌≡◌, refl, Option,
  none, some,
}
use salus_telemetry_envoy.Common.Assoc.{Assoc}
use salus_telemetry_envoy.Common.Result.{Result, ok, err, Error, wrap}
use salus_telemetry_envoy.Agents.Files.{Run, returned, panicked}
use salus_telemetry_envoy.Config.Listeners.{
  HostPort, register_listener_address, get_listener_address, get-register_listener_address,
}

-- The error of Bind, whether the ingestor has a listener, and the registered addresses.
abbrev pub Bound : Type 0
Bound = Run (Result (Unit {0})) × Bool × Assoc String String

abbrev pub after_register : Assoc String String → Run (Assoc String String) → Bound
after_register m panicked = (panicked, false, m)
after_register m (returned m') = (returned (ok tt), true, m')

-- net.Listen gives the address that the listener is bound to.
abbrev pub after_listen : HostPort → String → String → Result String → Assoc String String → Bound
after_listen net failure name (err e) m = (returned (err (wrap failure e)), false, m)
after_listen net failure name (ok address) m =
    after_register m (register_listener_address net name address m)

-- With the text of its error, the listener's name, and the configured address.
unfoldable pub bind :
    HostPort → String → String → String → Result String → Assoc String String → Bound
bind net failure name address listened m =
    if address == "" then (returned (ok tt), false, m) else after_listen net failure name listened m

-- What Bind did, and the address that it leaves under the name `other`.
pub data IsBound (net : HostPort) (failure name address : String) (listened : Result String)
    (m : Assoc String String) (other : String) (b : Bound) : Type 0 where
  disabled :
      (address == "") ≡ true
      → b ≡ (returned (ok tt), false, m)
      → IsBound net failure name address listened m other b
  failed :
      (e : Error)
      → (address == "") ≡ false
      → listened ≡ err e
      → b ≡ (returned (err (wrap failure e)), false, m)
      → IsBound net failure name address listened m other b
  unsplit :
      (actual : String)
      → (address == "") ≡ false
      → listened ≡ ok actual
      → net.split actual ≡ none
      → b.0 ≡ panicked
      → IsBound net failure name address listened m other b
  bound :
      (actual host port : String)
      → (address == "") ≡ false
      → listened ≡ ok actual
      → net.split actual ≡ some (host, port)
      → b.0 ≡ returned (ok tt)
      → b.1 ≡ true
      → get_listener_address other b.2 ≡ (
          if name == other
          then net.join (if host == "0.0.0.0" then "127.0.0.1" else host) port
          else get_listener_address other m)
      → IsBound net failure name address listened m other b

-- Bind does nothing without a configured address; where listening fails it returns the error and
-- has no listener; an address of the listener that cannot be split panics; otherwise it has a
-- listener, whose address is registered with the loopback host in place of 0.0.0.0, and the
-- addresses of other listeners are unchanged.
pub bind-IsBound :
    (net : HostPort) (failure name address : String) (listened : Result String)
    (m : Assoc String String) (other : String)
    → IsBound net failure name address listened m other (bind net failure name address listened m)
unfolding bind register_listener_address
bind-IsBound net failure name address listened m other =
    by_address (address == "") refl listened refl
  where
    by_split :
        (actual : String)
        → (address == "") ≡ false
        → listened ≡ ok actual
        → (s : Option (String × String)) → net.split actual ≡ s
        → IsBound net failure name address listened m other
            (after_listen net failure name (ok actual) m)
    by_split actual a l none s = rw s (unsplit actual a l s refl)
    by_split actual a l (some (host, port)) s = rw s (
        bound actual host port a l s refl refl
          (get-register_listener_address net name other actual host port m _ s (rw s refl)))

    by_address :
        (b : Bool)
        → (address == "") ≡ b
        → (r : Result String) → listened ≡ r
        → IsBound net failure name address listened m other
            (if b then (returned (ok tt), false, m) else after_listen net failure name r m)
    by_address true a r l = disabled a refl
    by_address false a (err e) l = failed e a l refl
    by_address false a (ok actual) l = by_split actual a l (net.split actual) refl
