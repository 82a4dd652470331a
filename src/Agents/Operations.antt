-- ===== src/Agents/Operations.antt =====
-- The loop over an instruction's operations that the runners' ProcessConfig functions share.
use salus_telemetry_envoy.Common.{
  nat_eq, string_eq, texts_eq, List, [], ◌∷◌, if◌then◌else◌, Bool, ℕ, zero, suc,
}
use salus_telemetry_envoy.Common.Result.{Result, ok, err, no_applied_configs}
use salus_telemetry_envoy.Protocol.{ConfigurationOp}
use salus_telemetry_envoy.Agents.Files.{Run, returned, panicked}

-- One operation: whether it was applied, an error that ends the loop, or a panic.
abbrev pub Handler : Type 0 → Type 0
Handler S = ConfigurationOp → S → Run (Result Bool) × S

-- "if applied == 0"
abbrev pub applied_result : ℕ → Result (Unit {0})
applied_result zero = err no_applied_configs
applied_result (suc n) = ok tt

unfoldable pub apply_ops :
    {S : Type 0} → Handler S → ℕ → List ConfigurationOp → S → Run (Result (Unit {0})) × S
apply_ops step applied [] s = (returned (applied_result applied), s)
apply_ops step applied (op ∷ rest) s =
    let r = step op s in
    elim r.0 [
      | returned (ok b) ↦ apply_ops step (if b then suc applied else applied) rest r.1
      | returned (err e) ↦ (returned (err e), r.1)
      | panicked ↦ (panicked, r.1)
    ]
