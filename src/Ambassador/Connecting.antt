-- ===== src/Ambassador/Connecting.antt =====
-- ambassador/connection.go: the loop of Start, which attaches again and again. The back-off library
-- calls attach until it succeeds, which it never does, and notifies of each failure, or gives up
-- when its time is over or the application ends.
use salus_telemetry_envoy.Common.{
  nat_eq, string_eq, texts_eq, List, [], ◌∷◌, String, if◌then◌else◌, Bool, true, false, ◌≡◌, refl,
  not, ◌||◌, Option, none, some,
}
use salus_telemetry_envoy.Common.Assoc.{Assoc}
use salus_telemetry_envoy.Common.Result.{Result, ok, err, Error, message, is_ok}
use salus_telemetry_envoy.Common.Texts.{contains}
use salus_telemetry_envoy.Agents.Files.{Run, returned, panicked, map_run}
use salus_telemetry_envoy.Protocol.{AgentType}
use salus_telemetry_envoy.Config.Host.{System}
use salus_telemetry_envoy.Config.Labels.{compute_labels}
use salus_telemetry_envoy.Ambassador.Session.{Session}
use salus_telemetry_envoy.Ambassador.Egress.{
  cause, Connection, DialOptions, EnvoySummary, dial_network, envoy_summary, attach, on_retry,
  load_tls_dial_option,
}

-- What happens at one call of attach: dialling, the Ambassador's answer to a summary, c.attached at
-- its return if a session began, the ids that are generated, whether the back-off gives up after
-- it, and what a reload of the certificates gives.
pub record Attempt (Tls : Type 0) : Type 0 where
  pub grpc_dial : DialOptions Tls → Result (Unit {0})
  pub attach_envoy : EnvoySummary → Result (Unit {0})
  pub left_attached : Bool
  pub envoy_id : String
  pub next_id : String
  pub gives_up : Bool
  pub loaded : Result Tls

abbrev pub is_some : {A : Type 0} → Option A → Bool
is_some none = false
is_some (some a) = true

module _ {Tls : Type 0} (address zone : String) (supported_agents : List AgentType)
    (error_text : Error → String) (tls_disabled : Bool) (insecure : Tls) where
  -- attach's error, with the connection at its return
  abbrev pub ended_session : Attempt Tls → Result Session × Connection Tls → Error × Connection Tls
  ended_session a (ok s, c) = (message "closed", record c { attached = a.left_attached })
  ended_session a (err e, c) = (e, c)

  abbrev pub after_attempt : Attempt Tls → Error × Connection Tls → Connection Tls
  after_attempt a (e, c) =
      if a.gives_up
      then record c { envoy_id = a.next_id }
      else on_retry error_text tls_disabled insecure a.loaded e c

  -- attach, with the settings and the summary of the connection.
  abbrev pub attach_once : Attempt Tls → Connection Tls → Run (Result Session) × Connection Tls
  unfolding attach dial_network envoy_summary
  attach_once a c =
      attach (dial_network a.grpc_dial address)
        (a.attach_envoy (envoy_summary supported_agents zone c)) a.envoy_id c

  unfoldable pub attempt : Attempt Tls → Connection Tls → Run (Connection Tls)
  attempt a c =
      let r = attach_once a c in map_run (λ s. after_attempt a (ended_session a (s, r.1))) r.0

  abbrev pub then_start :
      Run (Connection Tls) → (Connection Tls → Run (Connection Tls)) → Run (Connection Tls)
  then_start (returned c) k = k c
  then_start panicked k = panicked

  -- Start, with the attempts until the application ends; a panic ends the process.
  unfoldable pub start : List (Attempt Tls) → Connection Tls → Run (Connection Tls)
  unfolding attempt
  start [] c = returned c
  start (a ∷ rest) c = then_start (attempt a c) (start rest)

  -- Some load of the certificates would fail.
  abbrev pub any_unloaded : List (Attempt Tls) → Bool
  any_unloaded [] = false
  any_unloaded (a ∷ rest) = not (is_ok a.loaded) || any_unloaded rest

  -- A connection as it was made, up to what an attempt may change.
  pub record IsUsable (resource_id : String) (labels : Assoc String String)
      (has_chan unloaded : Bool) (c : Connection Tls) : Type 0 where
    pub resource : c.resource_id ≡ resource_id
    pub labelled : c.labels ≡ labels
    pub told : c.has_detach_chan ≡ has_chan
    pub secured : (is_some c.tls || unloaded) ≡ true

  -- What an attempt leaves, if it does not panic for the lack of a dial option.
  abbrev AreUsable : String → Assoc String String → Bool → Bool → Run (Connection Tls) → Type 0
  AreUsable id labels has_chan unloaded (returned c) = IsUsable id labels has_chan unloaded c
  AreUsable id labels has_chan unloaded panicked = unloaded ≡ true

  -- What the attempts leave: a panic, which needs a load of the certificates that fails, or the
  -- connection as it was made, whose next attempt tells the Ambassador all that it should.
  pub data HasKept (resource_id : String) (has_chan : Bool) (sys : System)
      (configured : Assoc String String) (attempts : List (Attempt Tls)) (r : Run (Connection Tls))
      : Type 0 where
    crashed :
        r ≡ panicked
        → any_unloaded attempts ≡ true
        → HasKept resource_id has_chan sys configured attempts r
    kept :
        (d : Connection Tls) (labels : Assoc String String)
        → r ≡ returned d
        → compute_labels sys configured ≡ ok labels
        → IsUsable resource_id labels has_chan (any_unloaded attempts) d
        → ((a : Attempt Tls)
            → attach_once a d
              ≡ attach
                  (dial_network a.grpc_dial address)
                  (a.attach_envoy (record {
                    supported_agents = supported_agents;
                    labels = labels;
                    resource_id = resource_id;
                    zone = zone;
                  }))
                  a.envoy_id
                  d)
        → HasKept resource_id has_chan sys configured attempts r

  -- The options of a dial of a network.
  abbrev pub options_of : String → Tls → DialOptions Tls
  options_of network t = record {
    address = address;
    transport = t;
    is_blocking = true;
    fails_on_non_temp_error = true;
    network = network;
  }

  -- If both dials of an attempt fail, that of tcp4 for an expired certificate, the back-off does
  -- not give up after it and the certificates cannot be loaded again, then the next attempt panics
  -- and ends the Envoy, whatever option the connection had.
  pub expired_reload_panics :
      (a b : Attempt Tls) (rest : List (Attempt Tls)) (c : Connection Tls) (t : Tls)
      (e6 e4 load_error : Error)
      → tls_disabled ≡ false
      → c.tls ≡ some t
      → a.grpc_dial (options_of "tcp6" t) ≡ err e6
      → a.grpc_dial (options_of "tcp4" t) ≡ err e4
      → contains (error_text (cause e4)) "tls: expired certificate" ≡ true
      → a.gives_up ≡ false
      → a.loaded ≡ err load_error
      → start (a ∷ b ∷ rest) c ≡ panicked
  unfolding start attempt attach_once attach dial_network on_retry load_tls_dial_option
  expired_reload_panics a b rest c t e6 e4 load_error d o h6 h4 x g l =
      rw (o, h6, h4, g, x, d, l) refl
