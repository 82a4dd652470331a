-- ===== src/Agents/Convert.antt =====
-- agents/converters.go: telegraf's TOML from a monitor's JSON. The JSON, TOML and case conversions
-- are those of other packages and are parameters.
use salus_telemetry_envoy.Common.{
  ◌==◌, nat_eq, string_eq, texts_eq, List, [], ◌∷◌, String, if◌then◌else◌, Bool, ℕ, ◌*◌, ◌%◌, ◌^◌,
  Option, none, some,
}
use salus_telemetry_envoy.Common.Assoc.{Assoc, lookup, insert, erase}
use salus_telemetry_envoy.Common.Result.{Result, ok, err, message, wrap_err, ◌>>=◌}

-- A decoded JSON value: `number` is a json.Number, `tree` an array, an object, a Boolean or null,
-- which the code passes on.
pub data Value (Tree Float : Type 0) : Type 0 where
  text : String → Value Tree Float
  number : String → Value Tree Float
  int : ℕ → Value Tree Float
  float : Float → Value Tree Float
  tree : Tree → Value Tree Float
  labels : Assoc String String → Value Tree Float

pub record Codec : Type 1 where
  pub Tree : Type 0
  pub Float : Type 0
  -- json.Decoder with UseNumber, and json.Unmarshal, into a map that is nil before; `none` is the
  -- map left nil, as the document `null` leaves it
  pub decode_numbers : String → Result (Option (Assoc String (Value Tree Float)))
  pub decode : String → Result (Option (Assoc String (Value Tree Float)))
  -- json.Encoder
  pub encode_json : Assoc String (Value Tree Float) → Result (List ℕ)
  -- toml.Encoder, on inputs.<plugin> with one table
  pub encode_toml : String → Assoc String (Value Tree Float) → Result (List ℕ)
  -- json.Number.Int64 and Float64
  pub int64 : String → Option ℕ
  pub float64 : String → Option Float
  pub to_snake : String → String
  pub to_kebab : String → String
  -- time.Duration.String, of a bit pattern
  pub duration_text : ℕ → String
  pub get_bool : Tree → Option Bool

-- time.Duration(interval) * time.Second
unfoldable pub seconds : ℕ → ℕ
seconds n = n * 1_000_000_000 % 2 ^ 64

module _ (codec : Codec) where
  open codec use {
    Tree, Float, decode_numbers, encode_toml, int64, float64, to_snake, to_kebab, duration_text,
  }

  unfoldable pub normalize_number : String → Option ℕ → Option Float → Value Tree Float
  normalize_number s (some i) f = int i
  normalize_number s none (some f) = float f
  normalize_number s none none = text s

  unfoldable pub normalize_value : Value Tree Float → Value Tree Float
  unfolding normalize_number
  normalize_value (number s) = normalize_number s (int64 s) (float64 s)
  normalize_value (text s) = text s
  normalize_value v = v

  unfoldable pub normalize_keys_and_values :
      Assoc String (Value Tree Float) → Assoc String (Value Tree Float)
  unfolding normalize_value
  normalize_keys_and_values [] = []
  normalize_keys_and_values ((k, v) ∷ rest) =
      insert (to_snake k) (normalize_value v) (normalize_keys_and_values rest)

  unfoldable pub normalize_keys_to_kebab_case :
      Assoc String (Value Tree Float) → Assoc String (Value Tree Float)
  normalize_keys_to_kebab_case [] = []
  normalize_keys_to_kebab_case ((k, v) ∷ rest) =
      insert (to_kebab k) v (normalize_keys_to_kebab_case rest)

  -- the checks on the 'type' discriminator
  unfoldable pub plugin_name : Option (Value Tree Float) → Result String
  plugin_name none = err (message "missing required 'type' discriminator")
  plugin_name (some (text s)) =
      if s == "" then err (message "'type' needs to be non-empty") else ok s
  plugin_name (some _) = err (message "'type' needs to be a string")

  abbrev add_tags :
      Assoc String String → Assoc String (Value Tree Float) → Assoc String (Value Tree Float)
  add_tags [] m = m
  add_tags (l ∷ ls) m = insert "tags" (labels (l ∷ ls)) m

  abbrev add_interval : ℕ → Assoc String (Value Tree Float) → Assoc String (Value Tree Float)
  add_interval i m = if i == 0 then m else insert "interval" (text (duration_text (seconds i))) m

  unfoldable pub final_plugin_config :
      Assoc String (Value Tree Float) → Assoc String String → ℕ → Assoc String (Value Tree Float)
  unfolding normalize_keys_and_values
  final_plugin_config flat extra interval =
      add_interval interval (add_tags extra (normalize_keys_and_values (erase "type" flat)))

  -- A nil map reads as an empty one.
  abbrev pub or_empty : Option (Assoc String (Value Tree Float)) → Assoc String (Value Tree Float)
  or_empty none = []
  or_empty (some m) = m

  unfoldable pub convert_json_to_telegraf_toml : String → Assoc String String → ℕ → Result (List ℕ)
  unfolding plugin_name final_plugin_config
  convert_json_to_telegraf_toml json extra interval = do
    decoded ← wrap_err "unable to decode raw config json" (decode_numbers json)
    let flat = or_empty decoded
    plugin ← plugin_name (lookup "type" flat)
    wrap_err "unable to encode config as toml"
        (encode_toml plugin (final_plugin_config flat extra interval))
