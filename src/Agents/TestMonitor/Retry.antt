-- ===== src/Agents/TestMonitor/Retry.antt =====
-- Which run of the test command counts.
use salus_telemetry_envoy.Common.{
  nat_eq, string_eq, texts_eq, List, true, false, nat_beq, arith, ◌≡◌, ◌⊎◌, inl, inr, refl, ℕ, zero,
  suc, ◌+◌, ◌≤◌, ◌<◌, Bool-cases, nat_beq_iff,
}
use salus_telemetry_envoy.Common.Result.{Result}
use salus_telemetry_envoy.Protocol.{agent_eq}
use salus_telemetry_envoy.Agents.TestMonitor.{is_decisive, retry, telegraf_max_test_monitor_retries}

-- Which of the runs a retried command's result is: all before it gave neither output nor an error,
-- and it did, or it was the last.
pub record IsFirst (run : ℕ → Result (List ℕ)) (first last i : ℕ) : Type 0 where
  pub from_first : first ≤ i
  pub to_last : i ≤ last
  pub indecisive : (j : ℕ) → first ≤ j → j < i → is_decisive (run j) ≡ false
  pub decides : (is_decisive (run i) ≡ true) ⊎ (i ≡ last)

-- One run is left, or decides.
at_once :
    (run : ℕ → Result (List ℕ)) (n last : ℕ)
    → n ≤ last
    → (is_decisive (run n) ≡ true) ⊎ (n ≡ last)
    → IsFirst run n last n
at_once run n last l d = record {
  from_first = omega arith;
  to_last = l;
  indecisive = λ j h k. absurd (omega arith);
  decides = d;
}

IsFirst-earlier :
    (run : ℕ → Result (List ℕ)) (n last i : ℕ)
    → is_decisive (run n) ≡ false
    → IsFirst run (n + 1) last i
    → IsFirst run n last i
IsFirst-earlier run n last i d f = record {
  from_first = omega (arith, f.from_first);
  to_last = f.to_last;
  indecisive = λ j h l. elim (Bool-cases (nat_beq j n)) [
    | inl e ↦ let e' : j ≡ n = (nat_beq_iff j n).0 e in rw e' d
    | inr e ↦ f.indecisive j (ground arith) l
  ];
  decides = f.decides;
}

IsFirst-retry :
    (k n last : ℕ) (run : ℕ → Result (List ℕ)) (before : Result (List ℕ))
    → n + k ≡ last
    → (i : ℕ) × (retry (suc k) n run before ≡ run i) × IsFirst run n last i
unfolding retry
IsFirst-retry zero n last run before e = elim (Bool-cases (is_decisive (run n))) [
  | inl d ↦ rw (d, retry) (n, refl, at_once run n last (omega arith) (inl d))
  | inr d ↦ rw (d, retry) (n, refl, at_once run n last (omega arith) (inr (omega arith)))
]
IsFirst-retry (suc k) n last run before e = elim (Bool-cases (is_decisive (run n))) [
  | inl d ↦ rw (d, retry) (n, refl, at_once run n last (omega arith) (inl d))
  | inr d ↦
      let (i, q, f) = IsFirst-retry k (n + 1) last run (run n) (omega arith) in
      rw (d, retry) (i, q, IsFirst-earlier run n last i d f)
]

-- Telegraf's test command is run at most three times: its result is that of the first run with an
-- error or with output, or that of the third.
pub retry-IsFirst :
    (run : ℕ → Result (List ℕ)) (before : Result (List ℕ))
    → (i : ℕ) × (retry telegraf_max_test_monitor_retries 0 run before ≡ run i) × IsFirst run 0 2 i
retry-IsFirst run before = IsFirst-retry 2 0 2 run before (omega arith)
