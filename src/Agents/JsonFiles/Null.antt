-- ===== src/Agents/JsonFiles/Null.antt =====
-- Configurations whose content is the JSON value null.
use salus_telemetry_envoy.Common.{
  nat_eq, string_eq, texts_eq, ◌++◌, List, [], ◌∷◌, Bool, true, false, ◌&&◌, ◌||◌, ◌≡◌, ◌⊎◌, Option,
  none, some,
}
use salus_telemetry_envoy.Common.Result.{Result, ok, err, Error, no_applied_configs}
use salus_telemetry_envoy.Protocol.{ConfigurationOp, OpType, create, modify, unknown_op}
use salus_telemetry_envoy.Paths.{FilePath}
use salus_telemetry_envoy.Os.{Fs}
use salus_telemetry_envoy.Agents.Convert.{Codec}
use salus_telemetry_envoy.Agents.Files.{Run, returned, panicked, ensure_configs_dir}
use salus_telemetry_envoy.Agents.JsonFiles.{JsonAgent, handle_json_op}

abbrev pub is_write : OpType → Bool
is_write create = true
is_write modify = true
is_write OpType.remove = false
is_write (unknown_op _) = false

-- A decoded map that is nil.
abbrev pub is_nil : {A : Type 0} → Result (Option A) → Bool
is_nil (ok none) = true
is_nil (ok (some a)) = false
is_nil (err e) = false

module _ (codec : Codec) (agent : JsonAgent) where
  open codec use {decode}

  abbrev pub writes_null : ConfigurationOp → Bool
  writes_null op = is_write op.op_type && is_nil (decode op.content)

  abbrev pub any_null : List ConfigurationOp → Bool
  any_null [] = false
  any_null (op ∷ rest) = writes_null op || any_null rest

  -- How the loop over the operations can end, with the operation at which it does.
  pub data Ending (configs : FilePath) (ops : List ConfigurationOp) (r : Run (Result (Unit {0})))
      : Type 0 where
    crashed :
        (before after : List ConfigurationOp) (op : ConfigurationOp)
        → ops ≡ before ++ op ∷ after
        → any_null before ≡ false
        → writes_null op ≡ true
        → r ≡ panicked
        → Ending configs ops r
    failed :
        (before after : List ConfigurationOp) (op : ConfigurationOp) (fs : Fs) (e : Error)
        → ops ≡ before ++ op ∷ after
        → any_null before ≡ false
        → (handle_json_op codec agent configs op fs).0 ≡ returned (err e)
        → r ≡ returned (err e)
        → Ending configs ops r
    finished :
        any_null ops ≡ false
        → (r ≡ returned (ok tt)) ⊎ (r ≡ returned (err no_applied_configs))
        → Ending configs ops r

  -- An operation panics if it writes a null, and only then.
  abbrev EndsBy : Bool → Run (Result Bool) → Type 0
  EndsBy true r = r ≡ panicked
  EndsBy false r = (b : Result Bool) × (r ≡ returned b)

  -- How ProcessConfig of the packages and the oracle agents ends: with the error of their
  -- directory, or as the loop.
  pub data IsProcessed (base : FilePath) (ops : List ConfigurationOp) (fs : Fs)
      (r : Run (Result (Unit {0}))) : Type 0 where
    no_directory :
        (e : Error)
        → (ensure_configs_dir base fs).0 ≡ err e
        → r ≡ returned (err e)
        → IsProcessed base ops fs r
    processed :
        (configs : FilePath)
        → (ensure_configs_dir base fs).0 ≡ ok configs
        → Ending configs ops r
        → IsProcessed base ops fs r
