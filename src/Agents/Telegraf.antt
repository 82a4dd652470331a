-- ===== src/Agents/Telegraf.antt =====
-- agents/telegraf.go: the configuration and the process of telegraf.
pub mod Configs
pub mod Sections
use salus_telemetry_envoy.Common.{
  ◌==◌, nat_eq, string_eq, ◌++◌, List, [], ◌∷◌, String, if◌then◌else◌, Bool, true, false, leb, not,
  ◌&&◌, ◌||◌, ℕ, ◌+◌, Option, none, some, length, drop, take,
}
use salus_telemetry_envoy.Common.Assoc.{Assoc, lookup, insert, erase}
use salus_telemetry_envoy.Common.Bytes
use salus_telemetry_envoy.Common.Result.{Result, ok, err, is_ok}
use salus_telemetry_envoy.Protocol.{
  ConfigurationOp, OpType, create, modify, remove, unknown_op, AgentType, telegraf,
}
use salus_telemetry_envoy.Paths.{FilePath, join}
use salus_telemetry_envoy.Agents.Convert.{Codec, convert_json_to_telegraf_toml}
use salus_telemetry_envoy.Agents.Files.{Check, Run, returned, panicked, file_exists, full_exe_path}
use salus_telemetry_envoy.Agents.Operations.{apply_ops}
use salus_telemetry_envoy.Agents.Process.{
  Processes, Host, is_running, stop, stop_and_forget, start_agent,
}

-- A check of the files, on the host.
abbrev pub host_check : Check → Host → Bool × Host
host_check c h = let r = c h.fs in (r.0, record h { fs = r.1 })

-- tr.tomlConfigs
abbrev pub Configs : Type 0
Configs = Assoc String (List ℕ)

module _ (codec : Codec) where
  abbrev pub store_converted : String → Result (List ℕ) → Configs → Bool × Configs
  store_converted id (ok c) m = (true, insert id c m)
  store_converted id (err _) m = (false, m)

  abbrev pub remove_present : String → Option (List ℕ) → Configs → Bool × Configs
  remove_present id (some _) m = (true, erase id m)
  remove_present id none m = (false, m)

  abbrev pub converted : ConfigurationOp → Result (List ℕ)
  converted op = convert_json_to_telegraf_toml codec op.content op.extra_labels op.interval

  abbrev pub telegraf_op : OpType → ConfigurationOp → Configs → Bool × Configs
  telegraf_op create op m = store_converted op.id (converted op) m
  telegraf_op modify op m = store_converted op.id (converted op) m
  telegraf_op remove op m = remove_present op.id (lookup op.id m) m
  telegraf_op (unknown_op _) op m = (false, m)

  unfoldable pub handle_telegraf_configuration_op : ConfigurationOp → Configs → Bool × Configs
  handle_telegraf_configuration_op op m = telegraf_op op.op_type op m

  unfoldable pub process_config : List ConfigurationOp → Configs → Run (Result (Unit {0})) × Configs
  process_config =
      apply_ops (λ op m. let r = handle_telegraf_configuration_op op m in (returned (ok r.0), r.1))
        0

-- PurgeConfig
unfoldable pub purge_config : Configs → Result (Unit {0}) × Configs
purge_config m = (ok tt, [])

abbrev pub inputs_header : List ℕ
inputs_header = Bytes.of "[inputs]"

abbrev pub bytes_beq : List ℕ → List ℕ → Bool
bytes_beq [] [] = true
bytes_beq (a ∷ x) (b ∷ y) = a == b && bytes_beq x y
bytes_beq _ _ = false

-- A configuration without its redundant header. v[0:8] reaches beyond the end of a shorter slice,
-- to the bytes `beyond` that follow it up to its capacity.
abbrev pub has_header : List ℕ → List ℕ → Bool
has_header beyond v = bytes_beq inputs_header (take 8 (v ++ beyond))

abbrev pub body_of : List ℕ → List ℕ → List ℕ
body_of beyond v = if has_header beyond v then drop 8 v else v

-- Neither v[0:8] nor, where the header is found, v[8:] panics: the one is bounded by the capacity,
-- the other by the length.
abbrev pub fits : List ℕ → List ℕ → Bool
fits beyond v = leb 8 (length (v ++ beyond)) && (not (has_header beyond v) || leb 8 (length v))

-- What follows the slice of the configuration with an id in memory, up to its capacity.
abbrev pub Memory : Type 0
Memory = String → List ℕ

-- The loop of concatConfigs.
unfoldable pub concat_bodies : Memory → List ℕ → Configs → Run (List ℕ)
concat_bodies beyond acc [] = returned acc
concat_bodies beyond acc ((id, v) ∷ rest) =
    let more = concat_bodies beyond (acc ++ body_of (beyond id) v) rest in
    if fits (beyond id) v then more else panicked

unfoldable pub concat_configs : Memory → List ℕ → Configs → Run (List ℕ)
unfolding concat_bodies
concat_configs beyond main m = concat_bodies beyond (main ++ inputs_header) m

unfoldable pub has_required_paths : FilePath → Check
has_required_paths base = file_exists (full_exe_path base "telegraf")

-- handleConfigReload: Signal sends nothing to a process that does not run
abbrev pub handle_config_reload : Processes → Processes
handle_config_reload p = if is_running p then record p { reloads = p.reloads + 1 } else p

unfoldable pub ensure_running_state : FilePath → Bool → Processes → Host → Processes × Host
ensure_running_state base apply_configs p h =
    let r = host_check (has_required_paths base) h in
    if not r.0
    then stop p r.1
    else if is_running p
    then (if apply_configs then handle_config_reload p else p, r.1)
    else let s = start_agent telegraf "Loaded inputs:" p r.1 in (s.1, s.2)
