-- ===== src/Ingest/PerfTest.antt =====
-- ingest/perf_test_ingestor.go: metrics at a rate that an HTTP server of its own changes.
pub mod Rates
use salus_telemetry_envoy.Common.{
  ◌==◌, string_eq, ◌++◌, List, [], ◌∷◌, String, if◌then◌else◌, Bool, true, false, not, ℕ, zero, suc,
  ◌+◌, ◌/◌, Option, none, some,
}
use Prim.Native.String.{◌++◌ as ◌++s◌}
use salus_telemetry_envoy.Common.Assoc.{Assoc, insert}
use salus_telemetry_envoy.Common.Result.{Result, ok, err, Error}
use salus_telemetry_envoy.Protocol.{NameTagValueMetric}
use salus_telemetry_envoy.Agents.Files.{Run, returned, panicked}

-- Go's int.
pub data ℤ : Type 0 where
  pos : ℕ → ℤ
  negsuc : ℕ → ℤ

pub record PerfTestIngestor : Type 0 where
  pub metrics_per_minute : ℤ
  pub floats_per_metric : ℤ

abbrev pub is_zero : ℤ → Bool
is_zero (pos zero) = true
is_zero _ = false

-- Bind, from the values of the configuration: port, metrics per minute, floats per metric.
unfoldable pub bind : ℤ → ℤ → ℤ → PerfTestIngestor → PerfTestIngestor
bind port rate floats p =
    if is_zero port
    then p
    else if is_zero rate
    then record { metrics_per_minute = pos 60; floats_per_metric = pos 10 }
    else record { metrics_per_minute = rate; floats_per_metric = floats }

-- time.Minute in nanoseconds
abbrev pub minute : ℕ
minute = 60_000_000_000

abbrev pub negated : ℕ → ℤ
negated zero = pos zero
negated (suc n) = negsuc n

-- Go's division, towards zero; it panics for a zero divisor.
abbrev pub quotient : ℕ → ℤ → Run ℤ
quotient m (pos zero) = panicked
quotient m (pos (suc n)) = returned (pos (m / suc n))
quotient m (negsuc n) = returned (negated (m / suc n))

-- time.NewTicker is documented to panic unless the period is positive.
abbrev pub new_ticker : Run ℤ → Run ℕ
new_ticker (returned (pos (suc n))) = returned (suc n)
new_ticker _ = panicked

-- The ticker's period for a rate.
unfoldable pub ticker : ℤ → Run ℕ
ticker rate = new_ticker (quotient minute rate)

-- What the loop of Start receives: a rate of newRateC, or a tick at a time.
pub data Event : Type 0 where
  new_rate : ℤ → Event
  tick : ℕ → Event

pub record Running (Float : Type 0) : Type 0 where
  pub ingestor : PerfTestIngestor
  pub period : ℕ
  pub posted : List (NameTagValueMetric Float)

module _ {Float : Type 0} (of_nat : ℕ → Float) (print : ℕ → String) where
  abbrev pub floats_from : ℕ → ℕ → Assoc String Float → Assoc String Float
  floats_from i zero m = m
  floats_from i (suc n) m = floats_from (i + 1) n (insert (print i) (of_nat i) m)

  abbrev pub count_of : ℤ → ℕ
  count_of (pos n) = n
  count_of (negsuc n) = 0

  -- `print i` is fmt.Sprintf("duration_%d", i).
  unfoldable pub process_metric : ℕ → PerfTestIngestor → NameTagValueMetric Float
  process_metric now p = record {
    name = "perfTestMetric";
    timestamp = now;
    tags = ("test_tag", "perfTestTag") ∷ [];
    fvalues = floats_from 0 (count_of p.floats_per_metric) [];
    svalues = ("result_type", "success") ∷ [];
  }

  abbrev pub with_rate : ℤ → Run ℕ → Running Float → Run (Running Float)
  with_rate rate panicked s = panicked
  with_rate rate (returned period) s =
      returned
        (record s { ingestor = record s.ingestor { metrics_per_minute = rate }; period = period })

  unfoldable pub on_event : Event → Running Float → Run (Running Float)
  unfolding ticker process_metric
  on_event (new_rate rate) s = with_rate rate (ticker rate) s
  on_event (tick now) s =
      returned (record s { posted = s.posted ++ process_metric now s.ingestor ∷ [] })

  abbrev pub then_loop :
      Run (Running Float) → (Running Float → Run (Running Float)) → Run (Running Float)
  then_loop panicked k = panicked
  then_loop (returned s) k = k s

  unfoldable pub loop : List Event → Running Float → Run (Running Float)
  unfolding on_event
  loop [] s = returned s
  loop (e ∷ es) s = then_loop (on_event e s) (loop es)

  abbrev pub begin : PerfTestIngestor → Run ℕ → List Event → Run (Option (Running Float))
  begin p panicked es = panicked
  begin p (returned period) es =
      elim (loop es (record { ingestor = p; period = period; posted = [] })) [
        | panicked ↦ panicked
        | returned s ↦ returned (some s)
      ]

  -- Start with the port of the configuration, until the application ends after the events.
  unfoldable pub start : ℤ → List Event → PerfTestIngestor → Run (Option (Running Float))
  unfolding ticker loop
  start port es p = if is_zero port then returned none else begin p (ticker p.metrics_per_minute) es

pub data Response : Type 0 where
  method_not_allowed : Response
  bad_request : String → Response
  rates_set : ℤ → ℤ → Response

pub record Request : Type 0 where
  pub is_post : Bool
  pub metrics_per_minute : String
  pub floats_per_metric : String

-- The answer, the rates sent to the loop of Start, and the ingestor.
abbrev pub Handled : Type 0
Handled = Response × List ℤ × PerfTestIngestor

module _ (atoi : String → Result ℤ) (error_text : Error → String) where
  abbrev pub set_floats : ℤ → List ℤ → Result ℤ → PerfTestIngestor → Handled
  set_floats rate sent (err e) p =
      (bad_request ("floatsPerMetric parameter must be an int: " ++s error_text e), sent, p)
  set_floats rate sent (ok n) p = (rates_set rate n, sent, record p { floats_per_metric = n })

  abbrev pub then_floats : String → ℤ → List ℤ → PerfTestIngestor → Handled
  then_floats text rate [] p =
      if text == ""
      then (bad_request "metricsPerMinute or floatsPerMetric parameter required", [], p)
      else set_floats rate [] (atoi text) p
  then_floats text rate (r ∷ rs) p =
      if text == ""
      then (rates_set rate p.floats_per_metric, r ∷ rs, p)
      else set_floats rate (r ∷ rs) (atoi text) p

  abbrev pub set_rate : String → Result ℤ → PerfTestIngestor → Handled
  set_rate text (err e) p =
      (bad_request ("metricsPerMinute parameter must be an int: " ++s error_text e), [], p)
  set_rate text (ok n) p = then_floats text n (n ∷ []) p

  unfoldable pub handler : Request → PerfTestIngestor → Handled
  handler r p =
      if not r.is_post
      then (method_not_allowed, [], p)
      else if r.metrics_per_minute == ""
      then then_floats r.floats_per_metric p.metrics_per_minute [] p
      else set_rate r.floats_per_metric (atoi r.metrics_per_minute) p
