-- ===== src/Lineproto.antt =====
-- lineproto/influx_line_protocol.go: metrics from parsed lines of the Influx line protocol. The
-- grammar is run by the participle library: `parse` below is that parser, a parameter.
pub mod Fields
pub mod Grammar
use salus_telemetry_envoy.Common.{
  string_eq, List, [], ◌∷◌, String, if◌then◌else◌, Bool, true, false, nat_beq, ℕ, ◌/◌, ◌%◌, ◌^◌,
  Option, none, some,
}
use Prim.Native.Char.{Char, code}
use salus_telemetry_envoy.Common.Assoc.{Assoc, insert}
use salus_telemetry_envoy.Common.Result.{Result, ok, err}
use salus_telemetry_envoy.Protocol.{NameTagValueMetric}

-- At most one of the fields is set.
pub record InfluxFieldValue (Float : Type 0) : Type 0 where
  pub int : Option ℕ
  pub float : Option Float
  pub boolean : Option Bool
  pub string : Option String

abbrev pub InfluxFieldSet : Type 0 → Type 0
InfluxFieldSet Float = String × InfluxFieldValue Float

pub record InfluxLine (Float : Type 0) : Type 0 where
  pub metric_name : String
  pub tag_set : List (String × String)
  pub field_set : List (InfluxFieldSet Float)
  -- nanoseconds, a uint64
  pub timestamp : ℕ

-- The token of an integer, without its trailing "i".
unfoldable pub fix_influx_line_int : String → String
fix_influx_line_int String.[] = String.[]
fix_influx_line_int (String.◌∷◌ c String.[]) =
    if nat_beq (code c) b'i' then String.[] else String.◌∷◌ c String.[]
fix_influx_line_int (String.◌∷◌ c (String.◌∷◌ d s)) =
    String.◌∷◌ c (fix_influx_line_int (String.◌∷◌ d s))

abbrev pub format_bool : Bool → String
format_bool true = "true"
format_bool false = "false"

-- What a field is stored as: in the string values, in the float values, or not at all.
pub data Stored (Float : Type 0) : Type 0 where
  as_string : String → Stored Float
  as_float : Float → Stored Float
  unstored : Stored Float

module _ {Float : Type 0} (of_uint : ℕ → Float) where
  abbrev pub stored_number : Option Float → Option ℕ → Stored Float
  stored_number (some f) i = as_float f
  stored_number none (some n) = as_float (of_uint n)
  stored_number none none = unstored

  abbrev pub stored_other : Option Bool → Option Float → Option ℕ → Stored Float
  stored_other (some b) f i = as_string (format_bool b)
  stored_other none f i = stored_number f i

  abbrev pub stored_value : Option String → Option Bool → Option Float → Option ℕ → Stored Float
  stored_value (some s) b f i = as_string s
  stored_value none b f i = stored_other b f i

  -- The tests of the loop over the fields, in their order.
  unfoldable pub stored_as : InfluxFieldValue Float → Stored Float
  stored_as v = stored_value v.string v.boolean v.float v.int

  abbrev pub store :
      String
      → Stored Float
      → Assoc String Float × Assoc String String
      → Assoc String Float × Assoc String String
  store k (as_string s) (f, t) = (f, insert k s t)
  store k (as_float x) (f, t) = (insert k x f, t)
  store k unstored m = m

  unfoldable pub store_fields :
      List (InfluxFieldSet Float)
      → Assoc String Float × Assoc String String
      → Assoc String Float × Assoc String String
  unfolding stored_as
  store_fields [] m = m
  store_fields ((k, v) ∷ rest) m = store_fields rest (store k (stored_as v) m)

  unfoldable pub store_tags : List (String × String) → Assoc String String → Assoc String String
  store_tags [] m = m
  store_tags ((k, v) ∷ rest) m = store_tags rest (insert k v m)

  -- Nanoseconds to milliseconds; int64 of a uint64 keeps the bits.
  unfoldable pub to_metric : InfluxLine Float → NameTagValueMetric Float
  unfolding store_fields store_tags
  to_metric line =
      let values = store_fields line.field_set ([], []) in
      record {
        name = line.metric_name;
        timestamp = line.timestamp / 1_000_000 % 2 ^ 64;
        tags = store_tags line.tag_set [];
        fvalues = values.0;
        svalues = values.1;
      }

  unfoldable pub to_metrics : List (InfluxLine Float) → List (NameTagValueMetric Float)
  unfolding to_metric
  to_metrics [] = []
  to_metrics (line ∷ rest) = to_metric line ∷ to_metrics rest

  abbrev pub parsed : Result (List (InfluxLine Float)) → Result (List (NameTagValueMetric Float))
  parsed (ok lines) = ok (to_metrics lines)
  parsed (err e) = err e

  unfoldable pub parse_influx_line_protocol_metrics :
      (List ℕ → Result (List (InfluxLine Float)))
      → List ℕ
      → Result (List (NameTagValueMetric Float))
  unfolding to_metrics
  parse_influx_line_protocol_metrics parse content = parsed (parse content)
