-- ===== src/Ingest/PerfTest/Rates.antt =====
-- Which rates the loop of the performance test survives.
use salus_telemetry_envoy.Common.{
  ◌==◌, nat_eq, string_eq, texts_eq, List, [], ◌∷◌, String, Bool, true, false, leb, arith, ◌≡◌,
  refl, ◌∙◌, ◌&&◌, ℕ, zero, suc, ◌+◌, ◌/◌, ◌≤◌, ◌<◌, length, length-append,
}
use salus_telemetry_envoy.Common.Result.{Result, ok, Error}
use salus_telemetry_envoy.Agents.Files.{returned, panicked}
use native.Mathlib.Nat.{div-eq-sub-div, div-eq_of_lt}
use salus_telemetry_envoy.Ingest.PerfTest.{
  process_metric, new_ticker, negated, ℤ, pos, negsuc, PerfTestIngestor, minute, ticker, Event,
  new_rate, tick, Running, on_event, loop, rates_set, Request, handler,
}

-- From one a minute to one a nanosecond.
abbrev pub is_usable : ℤ → Bool
is_usable (pos n) = leb 1 n && leb n minute
is_usable (negsuc n) = false

positive : (q : ℕ) → 0 < q → new_ticker (returned (pos q)) ≡ returned q
positive zero h = absurd (omega arith)
positive (suc q) h = refl

not_negative : (q : ℕ) → new_ticker (returned (negated q)) ≡ panicked
not_negative zero = refl
not_negative (suc q) = refl

quotient_positive : (m n : ℕ) → 0 < n → n ≤ m → 0 < m / n
quotient_positive m n h l = rw (div-eq-sub-div h l) (omega arith)

ticker_usable : (z : ℤ) → is_usable z ≡ true → (n : ℕ) × (ticker z ≡ returned n)
unfolding ticker
ticker_usable (pos zero) h = absurd (cc h)
ticker_usable (pos (suc n)) h = (
  minute / suc n,
  positive (minute / suc n) (quotient_positive minute (suc n) (omega arith) (ground arith)),
)
ticker_usable (negsuc n) h = absurd (cc h)

ticker_unusable : (z : ℤ) → is_usable z ≡ false → ticker z ≡ panicked
unfolding ticker
ticker_unusable (pos zero) h = refl
ticker_unusable (pos (suc n)) h = rw (div-eq_of_lt (too_fast n h)) refl
  where
    too_fast : (n : ℕ) → is_usable (pos (suc n)) ≡ false → minute < suc n
    too_fast n h = ground arith
ticker_unusable (negsuc n) h = not_negative (minute / suc n)

abbrev pub all_usable : List Event → Bool
all_usable [] = true
all_usable (new_rate z ∷ es) = is_usable z && all_usable es
all_usable (tick now ∷ es) = all_usable es

abbrev pub ticks : List Event → ℕ
ticks [] = 0
ticks (new_rate z ∷ es) = ticks es
ticks (tick now ∷ es) = ticks es + 1

both_true : {a b : Bool} → (a && b) ≡ true → (a ≡ true) × (b ≡ true)
both_true {a = a} {b = b} h = ground arith

module _ {Float : Type 0} (of_nat : ℕ → Float) (print : ℕ → String) where
  -- As long as every rate received is between one a minute and one a nanosecond, the loop of
  -- Start goes on, and posts one metric for each tick.
  pub loop_runs :
      (es : List Event) (s : Running Float)
      → all_usable es ≡ true
      → (t : Running Float) × (loop of_nat print es s ≡ returned t)
        × (length t.posted ≡ length s.posted + ticks es)
  unfolding loop on_event
  loop_runs [] s h = (s, refl, omega arith)
  loop_runs (new_rate z ∷ es) s h =
      let (n, e) = ticker_usable z (both_true h).0 in rw e (loop_runs es _ (both_true h).1)
  loop_runs (tick now ∷ es) s h =
      let (t, e, l) = loop_runs es _ h in
      (
        t,
        e,
        l
            ∙ rw (length-append s.posted (process_metric of_nat print now s.ingestor ∷ []))
                (omega arith),
      )

  -- A rate of zero, a negative one or one beyond a metric a nanosecond is accepted by the HTTP
  -- handler, which answers that it was set and sends it to the loop of Start, which then panics.
  pub accepted_rate_panics :
      (atoi : String → Result ℤ) (error_text : Error → String) (r : Request) (p : PerfTestIngestor)
      (z : ℤ) (es : List Event) (s : Running Float)
      → r.is_post ≡ true
      → (r.metrics_per_minute == "") ≡ false
      → r.floats_per_metric ≡ ""
      → atoi r.metrics_per_minute ≡ ok z
      → is_usable z ≡ false
      → (handler atoi error_text r p ≡ (rates_set z p.floats_per_metric, z ∷ [], p))
        × (loop of_nat print (new_rate z ∷ es) s ≡ panicked)
  unfolding loop on_event handler
  accepted_rate_panics atoi error_text r p z es s i n f a u =
      (rw (i, n, a, f) refl, rw (ticker_unusable z u) refl)
