-- ===== src/Ambassador/Stdout.antt =====
-- ambassador/stdout_egress.go: the connection of the detached mode, which prints what is posted.
use salus_telemetry_envoy.Common.{
  nat_eq, string_eq, texts_eq, ◌++◌, List, [], ◌∷◌, map, String, true, ◌≡◌, refl,
}
use salus_telemetry_envoy.Common.Result.{Result, ok, err}
use salus_telemetry_envoy.Protocol.{AgentType, NameTagValueMetric, TestMonitorResults}
use salus_telemetry_envoy.Ambassador.Egress
use salus_telemetry_envoy.Ambassador.Egress.{Connection, Call, log_event, metric, test_results}

-- The JSON marshaler, whose text is blank after an error.
abbrev pub marshaled : Result String → String
marshaled (ok content) = content
marshaled (err e) = ""

-- What a component posts.
pub data Post (Float : Type 0) : Type 0 where
  log : AgentType → String → Post Float
  sample : NameTagValueMetric Float → Post Float
  results : TestMonitorResults Float → Post Float

module _ {Float : Type 0} (marshal_metric : NameTagValueMetric Float → Result String)
    (marshal_results : TestMonitorResults Float → Result String) where
  -- The printed lines.
  unfoldable pub post_log_event : AgentType → String → List String
  post_log_event t content = content ∷ []

  unfoldable pub post_metric : NameTagValueMetric Float → List String
  post_metric m = marshaled (marshal_metric m) ∷ []

  unfoldable pub post_test_monitor_results : TestMonitorResults Float → List String
  post_test_monitor_results r = marshaled (marshal_results r) ∷ []

  abbrev pub printed : List (Post Float) → List String
  printed [] = []
  printed (log t content ∷ rest) = post_log_event t content ++ printed rest
  printed (sample m ∷ rest) = post_metric m ++ printed rest
  printed (results r ∷ rest) = post_test_monitor_results r ++ printed rest

  -- The same posts over a connection to an Ambassador.
  abbrev pub called : {Tls : Type 0} → Connection Tls → List (Post Float) → List (Call Float)
  called c [] = []
  called c (log t content ∷ rest) = Egress.post_log_event c t content ++ called c rest
  called c (sample m ∷ rest) = Egress.post_metric c m ++ called c rest
  called c (results r ∷ rest) = Egress.post_test_monitor_results c r ++ called c rest

  abbrev pub line_of : Call Float → String
  line_of (log_event t content) = content
  line_of (metric m) = marshaled (marshal_metric m)
  line_of (test_results r) = marshaled (marshal_results r)

  -- The detached connection prints, one line each and in their order, the messages that the same
  -- posts send over a connection that is attached.
  pub printed-eq-called :
      {Tls : Type 0} (c : Connection Tls) (posts : List (Post Float))
      → c.attached ≡ true
      → printed posts ≡ map line_of (called c posts)
  unfolding post_log_event post_metric post_test_monitor_results Egress.post_log_event
      Egress.post_metric Egress.post_test_monitor_results
  printed-eq-called c [] a = refl
  printed-eq-called c (log t content ∷ rest) a = rw (a, printed-eq-called c rest a) refl
  printed-eq-called c (sample m ∷ rest) a = rw (a, printed-eq-called c rest a) refl
  printed-eq-called c (results r ∷ rest) a = rw (printed-eq-called c rest a) refl
