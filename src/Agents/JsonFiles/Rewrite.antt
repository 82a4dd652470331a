-- ===== src/Agents/JsonFiles/Rewrite.antt =====
-- What a rewritten configuration file holds.
use salus_telemetry_envoy.Common.{
  nat_eq, string_eq, texts_eq, eq_self, ◌++◌, List, [], ◌∷◌, String, arith, ◌≡◌, ◌≢◌, refl, ap, ℕ,
  ◌<◌, some, length, drop, length-append, drop-ne_nil,
}
use salus_telemetry_envoy.Common.Assoc.{Assoc, lookup-insert}
use salus_telemetry_envoy.Common.Result.{ok}
use salus_telemetry_envoy.Protocol.{ConfigurationOp}
use salus_telemetry_envoy.Paths.{FilePath}
use salus_telemetry_envoy.Os.{Fs, file, node_at}
use salus_telemetry_envoy.Os.Write.{open_file, write_bytes, over}
use salus_telemetry_envoy.Agents.Convert.{Codec, Value}
use salus_telemetry_envoy.Agents.Files.{returned}
use salus_telemetry_envoy.Agents.JsonFiles.{JsonAgent, file_map, write_config_file}

over-ne : (new old : List ℕ) → length new < length old → over new old ≢ new
over-ne new old h e = drop-ne_nil (length new) old h (
    nil_of_length (drop (length new) old)
      (omega (arith, length-append new (drop (length new) old), ap length e)))
  where
    nil_of_length : (xs : List ℕ) → length xs ≡ 0 → xs ≡ []
    nil_of_length [] z = refl
    nil_of_length (x ∷ xs) z = absurd (omega arith)

-- writeConfigFile over a longer file, with no failing call, returns no error and leaves the file
-- with the end of its former content behind the new document.
pub write_config_file_tail :
    (codec : Codec) (agent : JsonAgent) (path : FilePath) (op : ConfigurationOp) (fs : Fs)
    (m : Assoc String (Value codec.Tree codec.Float)) (new old : List ℕ)
    → codec.decode op.content ≡ ok (some m)
    → codec.encode_json (file_map codec agent op.interval m) ≡ ok new
    → node_at fs path ≡ some (file old)
    → fs.faults ≡ []
    → length new < length old
    → (c : List ℕ) × ((write_config_file codec agent path op fs).0 ≡ returned (ok tt))
      × (node_at (write_config_file codec agent path op fs).1 path ≡ some (file c))
      × (c ≡ new ++ drop (length new) old)
      × (c ≢ new)
unfolding write_config_file open_file write_bytes
write_config_file_tail codec agent path op fs m new old d e n f l = (
  over new old,
  rw (d, e, f, n) refl,
  rw (d, e, f, n) (rw lookup-insert (rw eq_self refl)),
  refl,
  over-ne new old l,
)
