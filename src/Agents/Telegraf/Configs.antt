-- ===== src/Agents/Telegraf/Configs.antt =====
-- telegraf's configurations against a specification: each bound monitor has its last configuration.
use salus_telemetry_envoy.Common.{
  ◌==◌, nat_eq, string_eq, texts_eq, List, [], ◌∷◌, String, if◌then◌else◌, false, arith, ◌≡◌, ◌⊎◌,
  inl, inr, refl, ap, ◌∙◌, ℕ, zero, suc, Option, none, some,
}
use salus_telemetry_envoy.Common.Assoc.{lookup, lookup-insert, lookup-erase}
use salus_telemetry_envoy.Common.Result.{Result, ok, err, no_applied_configs}
use salus_telemetry_envoy.Protocol.{ConfigurationOp, OpType, create, modify, remove, unknown_op}
use salus_telemetry_envoy.Agents.Convert.{Codec}
use salus_telemetry_envoy.Agents.Files.{returned}
use salus_telemetry_envoy.Agents.Operations.{apply_ops, Handler}
use salus_telemetry_envoy.Agents.Telegraf.{
  Configs, converted, telegraf_op, handle_telegraf_configuration_op, process_config,
  store_converted, remove_present,
}

module _ (codec : Codec) where
  abbrev stored : Result (List ℕ) → Option (List ℕ) → Option (List ℕ)
  stored (ok c) d = some c
  stored (err e) d = d

  -- What an operation on its own monitor makes of the monitor's configuration.
  abbrev own_effect : OpType → ConfigurationOp → Option (List ℕ) → Option (List ℕ)
  own_effect create op d = stored (converted codec op) d
  own_effect modify op d = stored (converted codec op) d
  own_effect remove op d = none
  own_effect (unknown_op n) op d = d

  -- The configuration of monitor i after the operations, from the one before.
  abbrev pub expected : String → List ConfigurationOp → Option (List ℕ) → Option (List ℕ)
  expected i [] d = d
  expected i (op ∷ rest) d = expected i rest (if op.id == i then own_effect op.op_type op d else d)

  lookup-store_converted :
      (id i : String) (r : Result (List ℕ)) (m : Configs)
      → lookup i (store_converted codec id r m).1
        ≡ (if id == i then stored r (lookup i m) else lookup i m)
  lookup-store_converted id i (ok c) m = lookup-insert id i c m
  lookup-store_converted id i (err e) m = ground arith

  lookup-remove_present :
      (id i : String) (o : Option (List ℕ)) (m : Configs)
      → lookup id m ≡ o
      → lookup i (remove_present codec id o m).1 ≡ (if id == i then none else lookup i m)
  lookup-remove_present id i (some c) m e = lookup-erase id i m
  lookup-remove_present id i none m e = ground (arith, string_eq.same_iff id i)

  lookup-telegraf_op :
      (i : String) (t : OpType) (op : ConfigurationOp) (m : Configs)
      → lookup i (telegraf_op codec t op m).1
        ≡ (if op.id == i then own_effect t op (lookup i m) else lookup i m)
  lookup-telegraf_op i create op m = lookup-store_converted op.id i (converted codec op) m
  lookup-telegraf_op i modify op m = lookup-store_converted op.id i (converted codec op) m
  lookup-telegraf_op i remove op m = lookup-remove_present op.id i (lookup op.id m) m refl
  lookup-telegraf_op i (unknown_op n) op m = ground arith

  abbrev step : Handler Configs
  step op m = let r = handle_telegraf_configuration_op codec op m in (returned (ok r.0), r.1)

  lookup-apply_ops :
      (i : String) (ops : List ConfigurationOp) (n : ℕ) (m : Configs)
      → lookup i (apply_ops step n ops m).1 ≡ expected i ops (lookup i m)
  unfolding apply_ops handle_telegraf_configuration_op
  lookup-apply_ops i [] n m = refl
  lookup-apply_ops i (op ∷ rest) n m =
      lookup-apply_ops i rest _ (step op m).1
      ∙ ap (expected i rest) (lookup-telegraf_op i op.op_type op m)

  -- After ProcessConfig each bound monitor has the configuration of its last operation that could
  -- be converted, or none if it was removed after that; other monitors keep theirs.
  pub lookup-process_config :
      (i : String) (ops : List ConfigurationOp) (m : Configs)
      → lookup i (process_config codec ops m).1 ≡ expected i ops (lookup i m)
  unfolding process_config
  lookup-process_config i ops m = lookup-apply_ops i ops 0 m

  -- An operation that is not applied changes nothing.
  telegraf_op-unapplied :
      (t : OpType) (op : ConfigurationOp) (m : Configs)
      → (telegraf_op codec t op m).0 ≡ false
      → (telegraf_op codec t op m).1 ≡ m
  telegraf_op-unapplied create op m h = ground arith
  telegraf_op-unapplied modify op m h = ground arith
  telegraf_op-unapplied remove op m h = ground arith
  telegraf_op-unapplied (unknown_op n) op m h = refl

  apply_ops-unapplied :
      (n : ℕ) (ops : List ConfigurationOp) (m : Configs)
      → ((apply_ops step n ops m).0 ≡ returned (ok tt))
        ⊎ (n ≡ 0)
          × ((apply_ops step n ops m).0 ≡ returned (err no_applied_configs))
          × ((apply_ops step n ops m).1 ≡ m)
  unfolding apply_ops handle_telegraf_configuration_op
  apply_ops-unapplied zero [] m = inr (refl, refl, refl)
  apply_ops-unapplied (suc n) [] m = inl refl
  apply_ops-unapplied n (op ∷ rest) m = ground (
    arith,
    apply_ops-unapplied (suc n) rest (step op m).1,
    apply_ops-unapplied n rest (step op m).1,
    telegraf_op-unapplied op.op_type op m,
  )

  -- ProcessConfig returns no error, or it returns noAppliedConfigsError with the configurations as
  -- they were.
  pub process_config_outcome :
      (ops : List ConfigurationOp) (m : Configs)
      → ((process_config codec ops m).0 ≡ returned (ok tt))
        ⊎ ((process_config codec ops m).0 ≡ returned (err no_applied_configs))
          × ((process_config codec ops m).1 ≡ m)
  unfolding process_config
  process_config_outcome ops m = elim (apply_ops-unapplied 0 ops m) [
    | inl e ↦ inl e
    | inr (z, e, u) ↦ inr (e, u)
  ]
