-- ===== src/Lineproto/Grammar/Written.antt =====
-- The tokens of lines of the Influx line protocol, written as the grammar of
-- lineproto/influx_line_protocol.go wants them, and the lines of their values.
use salus_telemetry_envoy.Common.{
  nat_eq, string_eq, texts_eq, List, [], ◌∷◌, String, Bool, true, false, ℕ, Option, none, some,
}
use salus_telemetry_envoy.Lineproto.{InfluxLine}
use salus_telemetry_envoy.Lineproto.Grammar.{
  Token, float, string, comma, space, equals, newline, test_output_prefix, tag_value, field_value,
}

-- A line with the token of each value; telegraf's test mode puts a prefix before it.
pub record WrittenLine : Type 0 where
  pub prefixed : Bool
  pub name : String
  pub tags : List (String × Token)
  pub key : String
  pub value : Token
  pub more : List (String × Token)
  pub time : String

abbrev pub print_pairs : List (String × Token) → List Token → List Token
print_pairs [] ts = ts
print_pairs ((k, v) ∷ rest) ts = comma ∷ string k ∷ equals ∷ v ∷ print_pairs rest ts

abbrev pub print_prefix : Bool → List Token → List Token
print_prefix true ts = test_output_prefix ∷ ts
print_prefix false ts = ts

abbrev pub print_line : WrittenLine → List Token → List Token
print_line l ts = print_prefix l.prefixed (
    string l.name
    ∷ print_pairs l.tags
        (space ∷ string l.key ∷ equals ∷ l.value ∷ print_pairs l.more (space ∷ float l.time ∷ ts)))

abbrev pub print_more : List WrittenLine → Bool → List Token
print_more [] true = newline ∷ []
print_more [] false = []
print_more (l ∷ rest) nl = newline ∷ print_line l (print_more rest nl)

abbrev pub with_read : {A B : Type 0} → Option A → (A → Option B) → Option B
with_read none f = none
with_read (some a) f = f a

abbrev pub read_pairs :
    {A : Type 0} → (Token → Option A) → List (String × Token) → Option (List (String × A))
read_pairs value [] = some []
read_pairs value ((k, v) ∷ rest) =
    with_read (value v) (λ a. with_read (read_pairs value rest) (λ pairs. some ((k, a) ∷ pairs)))

module _ {Float : Type 0} (to_uint : String → Option ℕ) (to_float : String → Option Float) where
  -- A line, if all its values are values.
  abbrev pub written_line : WrittenLine → Option (InfluxLine Float)
  written_line l = with_read (read_pairs tag_value l.tags) (λ tags.
      with_read (field_value to_uint to_float l.value) (λ v.
        with_read (read_pairs (field_value to_uint to_float) l.more) (λ more.
          with_read (to_uint l.time) (λ t. some (record {
            metric_name = l.name;
            tag_set = tags;
            field_set = (l.key, v) ∷ more;
            timestamp = t;
          })))))

  abbrev pub written_lines : List WrittenLine → Option (List (InfluxLine Float))
  written_lines [] = some []
  written_lines (l ∷ rest) =
      with_read (written_line l)
        (λ line. with_read (written_lines rest) (λ lines. some (line ∷ lines)))
