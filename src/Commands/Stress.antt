-- ===== src/Commands/Stress.antt =====
-- cmd/stressconnections.go: many connections, each with fabricated metrics at a rate.
pub mod Rates
use salus_telemetry_envoy.Common.{
  Option, none, some, List, [], ◌∷◌, String, Bool, true, false, ℕ, zero, suc, ◌+◌, ◌*◌, ◌%◌,
}
use Prim.Native.String.{◌++◌ as ◌++s◌}
use salus_telemetry_envoy.Common.Assoc.{Assoc}
use salus_telemetry_envoy.Common.Result.{Result, ok, err, Error}
use salus_telemetry_envoy.Protocol.{
  NameTagValueMetric, TestMonitorResults, EnvoyInstructionTestMonitor, EnvoyInstruction,
  test_monitor,
}
use salus_telemetry_envoy.Agents.Files.{Run, returned, panicked, map_run}
use salus_telemetry_envoy.Ingest.PerfTest.{ℤ, pos, negsuc, minute, quotient, new_ticker}
use salus_telemetry_envoy.Ambassador.Egress.{Connection}

-- processTestMonitor of ambassador/connection.go posts the results unless they are nil.
abbrev pub results_of : {A : Type 0} → Option A → List A
results_of none = []
results_of (some r) = r ∷ []

-- mockAgentsRouter, which ignores what it is given: no results of a test are posted.
abbrev pub mock_test_monitor :
    {Float : Type 0} → EnvoyInstructionTestMonitor → Option (TestMonitorResults Float)
mock_test_monitor t = none

unfoldable pub mock_instruction :
    {Float : Type 0} → EnvoyInstruction → List (TestMonitorResults Float)
mock_instruction (test_monitor t) = results_of (mock_test_monitor t)
mock_instruction _ = []

-- rand.Int63n with the number that it draws; it is documented to panic unless its bound is
-- positive.
abbrev pub int63n : ℤ → ℕ → Run ℕ
int63n (pos (suc n)) drawn = returned (drawn % suc n)
int63n _ drawn = panicked

-- The delay before the first tick, and the ticker's period.
abbrev pub stagger : Bool → ℤ → ℕ → Run ℕ
stagger true interval drawn = int63n interval drawn
stagger false interval drawn = returned 0

abbrev pub with_delay : Run ℕ → Run ℕ → Run (ℕ × ℕ)
with_delay (returned delay) (returned period) = returned (delay, period)
with_delay _ _ = panicked

abbrev pub with_interval : Bool → ℕ → Run ℤ → Run (ℕ × ℕ)
with_interval staggered drawn panicked = panicked
with_interval staggered drawn (returned interval) =
    with_delay (stagger staggered interval drawn) (new_ticker (returned interval))

-- sendMetrics up to its loop.
unfoldable pub timing : ℤ → Bool → ℕ → Run (ℕ × ℕ)
timing rate staggered drawn = with_interval staggered drawn (quotient minute rate)

module _ {Float : Type 0} where
  -- `drawn` is the random duration, and `seconds` the tick's Unix time.
  unfoldable pub send_metric : ℕ → Float → String → String → NameTagValueMetric Float
  send_metric seconds drawn resource_id monitor_id = record {
    name = "stress_connection";
    timestamp = seconds * 1000;
    tags =
        ("monitor_id", monitor_id)
        ∷ ("monitor_type", "stress")
        ∷ ("simulating_resource", resource_id)
        ∷ [];
    fvalues = ("duration", drawn) ∷ [];
    svalues = [];
  }

  abbrev pub sent : String → String → List (ℕ × Float) → List (NameTagValueMetric Float)
  sent resource_id monitor_id [] = []
  sent resource_id monitor_id ((now, drawn) ∷ rest) =
      send_metric now drawn resource_id monitor_id ∷ sent resource_id monitor_id rest

  -- sendMetrics: what is posted until the context is done, with the ticks that come before.
  unfoldable pub send_metrics :
      ℤ → Bool → ℕ → String → String → List (ℕ × Float) → Run (List (NameTagValueMetric Float))
  unfolding timing send_metric
  send_metrics rate staggered drawn resource_id monitor_id ticks =
      map_run (λ t. sent resource_id monitor_id ticks) (timing rate staggered drawn)

module _ {Tls : Type 0} (prefix : String) (print : ℕ → String)
    (created : ℕ → Result (Connection Tls)) where
  -- `print i` is fmt.Sprintf("-%04d", i).
  abbrev pub resource_id_at : ℕ → String
  resource_id_at i = prefix ++s print i

  abbrev pub set_resource_id : String → Connection Tls → Connection Tls
  set_resource_id id c = record c { resource_id = id }

  abbrev pub and_more :
      ℕ → Result (Connection Tls) → Result (List (Connection Tls)) → Result (List (Connection Tls))
  and_more i (err e) more = err e
  and_more i (ok c) (err e) = err e
  and_more i (ok c) (ok cs) = ok (set_resource_id (resource_id_at i) c ∷ cs)

  -- The loop that creates the connections, from the i-th; its error ends the process.
  unfoldable pub connect_from : ℕ → ℕ → Result (List (Connection Tls))
  connect_from i zero = ok []
  connect_from i (suc n) = and_more i (created i) (connect_from (i + 1) n)

  -- make panics on a negative length
  unfoldable pub connect_all : ℤ → Run (Result (List (Connection Tls)))
  unfolding connect_from
  connect_all (pos n) = returned (connect_from 0 n)
  connect_all (negsuc n) = panicked
