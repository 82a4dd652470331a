-- ===== src/Commands/Stress/Rates.antt =====
-- The rates of the simulated metrics, and the connections that post them.
use salus_telemetry_envoy.Common.{
  nat_eq, string_eq, texts_eq, Bool, true, false, arith, ◌≡◌, ◌⊎◌, inl, inr, refl, ℕ, zero, suc,
  ◌+◌, ◌*◌, ◌/◌, ◌%◌, ◌≤◌, ◌<◌,
}
use salus_telemetry_envoy.Agents.Files.{Run, returned, panicked}
use salus_telemetry_envoy.Ingest.PerfTest.{ℤ, pos, negsuc, minute, negated}
use salus_telemetry_envoy.Commands.Stress.{with_interval, timing}

-- What a rate of metrics per minute comes to.
pub data IsTiming (rate : ℤ) (staggered : Bool) (t : Run (ℕ × ℕ)) : Type 0 where
  not_positive :
      ((rate ≡ pos 0) ⊎ ((n : ℕ) × (rate ≡ negsuc n))) → t ≡ panicked → IsTiming rate staggered t
  too_often : (n : ℕ) → rate ≡ pos n → minute < n → t ≡ panicked → IsTiming rate staggered t
  ticks :
      (n delay period : ℕ)
      → rate ≡ pos n
      → t ≡ returned (delay, period)
      → n * period ≤ minute
      → minute < n * period + n
      → delay < period
      → (staggered ≡ true) ⊎ (delay ≡ 0)
      → IsTiming rate staggered t

div_bounds : (m n : ℕ) → (suc n * (m / suc n) ≤ m) × (m < suc n * (m / suc n) + suc n)
div_bounds m n = grind arith

no_period :
    (q : ℕ) (staggered : Bool) (drawn : ℕ)
    → with_interval staggered drawn (returned (negated q)) ≡ panicked
no_period zero true drawn = refl
no_period zero false drawn = refl
no_period (suc q) true drawn = refl
no_period (suc q) false drawn = refl

by_period :
    (n q : ℕ) (staggered : Bool) (drawn : ℕ)
    → suc n * q ≤ minute
    → minute < suc n * q + suc n
    → IsTiming (pos (suc n)) staggered (with_interval staggered drawn (returned (pos q)))
by_period n zero true drawn l u = too_often (suc n) refl (grind arith) refl
by_period n zero false drawn l u = too_often (suc n) refl (grind arith) refl
by_period n (suc q) true drawn l u =
    ticks (suc n) (drawn % suc q) (suc q) refl refl l u (grind arith) (inl refl)
by_period n (suc q) false drawn l u = ticks (suc n) 0 (suc q) refl refl l u (omega arith) (inr refl)

-- A rate that is not positive, or exceeds the nanoseconds of a minute, panics. For any other the
-- ticker's period is the whole part of a minute divided by the rate, and the first delay is below
-- the period, and none if it is not staggered.
pub timing-IsTiming :
    (rate : ℤ) (staggered : Bool) (drawn : ℕ)
    → IsTiming rate staggered (timing rate staggered drawn)
unfolding timing
timing-IsTiming (pos zero) staggered drawn = not_positive (inl refl) refl
timing-IsTiming (pos (suc n)) staggered drawn =
    let b = div_bounds minute n in by_period n (minute / suc n) staggered drawn b.0 b.1
timing-IsTiming (negsuc n) staggered drawn =
    not_positive (inr (n, refl)) (no_period (minute / suc n) staggered drawn)
