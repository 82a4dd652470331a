-- ===== src/Examples/Data.antt =====
-- The data that the examples share.
use salus_telemetry_envoy.Common.{nat_eq, string_eq, texts_eq, ◌++◌, [], ◌∷◌, ℕ, none, some}
use salus_telemetry_envoy.Common.Result.{ok}
use salus_telemetry_envoy.Paths.{FilePath}
use salus_telemetry_envoy.Os.{Fs, dir, file, link}
use salus_telemetry_envoy.Agents.Convert.{Codec, text}

-- A data directory with telegraf 1.0 installed and running, and filebeat with one configuration.
abbrev pub base : FilePath
base = "data" ∷ "agents" ∷ "TELEGRAF" ∷ []

abbrev pub filebeat_base : FilePath
filebeat_base = "data" ∷ "agents" ∷ "FILEBEAT" ∷ []

abbrev pub installed : Fs
installed = record {
  nodes =
      ("data" ∷ [], dir)
      ∷ ("data" ∷ "agents" ∷ [], dir)
      ∷ (base, dir)
      ∷ (base ++ "1.0" ∷ [], dir)
      ∷ (base ++ "1.0" ∷ "bin" ∷ [], dir)
      ∷ (base ++ "1.0" ∷ "bin" ∷ "telegraf" ∷ [], file (1 ∷ []))
      ∷ (base ++ "CURRENT" ∷ [], link "1.0")
      ∷ (filebeat_base, dir)
      ∷ (filebeat_base ++ "config.d" ∷ [], dir)
      ∷ (filebeat_base ++ "config.d" ∷ "m1.yml" ∷ [], file (7 ∷ 8 ∷ 9 ∷ []))
      ∷ [];
  faults = [];
}

-- A codec for which every document is one table with the type "cpu".
abbrev pub toy : Codec
toy = record {
  Tree = Unit;
  Float = ℕ;
  decode_numbers = λ s. ok (some (("type", text "cpu") ∷ []));
  decode = λ s. ok (some (("type", text "cpu") ∷ []));
  encode_json = λ m. ok (1 ∷ 2 ∷ []);
  encode_toml = λ p m. ok (3 ∷ 4 ∷ []);
  int64 = λ s. none;
  float64 = λ s. none;
  to_snake = λ s. s;
  to_kebab = λ s. s;
  duration_text = λ n. "10s";
  get_bool = λ t. none;
}
