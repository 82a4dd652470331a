-- ===== src/Lineproto/Grammar.antt =====
-- The grammar of lineproto/influx_line_protocol.go on tokens: the tags of the structs InfluxLines
-- to InfluxFieldValue. The lexer and the run of the grammar are the participle library's; in its
-- notation @ captures what it stands before, a text without @ is matched and not captured, whatever
-- the type of the token, and alternatives are tried in their order. A token here has its type and
-- its text, that of an Int after fixInfluxLineInt and that of a QuotedString without its quotes.
pub mod Booleans
pub mod Parsed
pub mod ParsedLine
pub mod Printed
pub mod Signed
pub mod Written
use salus_telemetry_envoy.Common.{
  ◌==◌, string_eq, List, [], ◌∷◌, map, String, if◌then◌else◌, Bool, true, false, ◌||◌, ℕ, zero, suc,
  Option, none, some, length,
}
use salus_telemetry_envoy.Common.Result.{Result, ok, err, Error, ◌>>=◌}
use salus_telemetry_envoy.Lineproto.{
  fix_influx_line_int, InfluxFieldValue, InfluxFieldSet, InfluxLine,
}

pub data Token : Type 0 where
  int float quoted_string string : String → Token
  comma space equals newline test_output_prefix : Token

abbrev pub is_any : String → List String → Bool
is_any s [] = false
is_any s (t ∷ rest) = (s == t) || is_any s rest

abbrev pub true_texts : List String
true_texts = "t" ∷ "T" ∷ "True" ∷ "TRUE" ∷ []

abbrev pub false_texts : List String
false_texts = "f" ∷ "F" ∷ "False" ∷ "FALSE" ∷ []

-- (@String | @Float | @Int)
unfoldable pub tag_value : Token → Option String
tag_value (string s) = some s
tag_value (float s) = some s
tag_value (int s) = some s
tag_value _ = none

-- One more key and its value before what follows, or else nothing of the tokens.
abbrev pub next_pair :
    {A : Type 0}
    → String
    → Option A
    → List (String × A) × List Token
    → List Token
    → List (String × A) × List Token
next_pair k (some a) (pairs, rest) ts = ((k, a) ∷ pairs, rest)
next_pair k none _ ts = ([], ts)

-- ( Comma @String Equals value )*
unfoldable pub pairs_from :
    {A : Type 0} → (Token → Option A) → List Token → List (String × A) × List Token
pairs_from value (comma ∷ string k ∷ equals ∷ v ∷ ts) =
    next_pair k (value v) (pairs_from value ts) (comma ∷ string k ∷ equals ∷ v ∷ ts)
pairs_from value ts = ([], ts)

-- The lexer of influxLineParser, with its mapping of the Int tokens.
unfoldable pub map_token : Token → Token
unfolding fix_influx_line_int
map_token (int s) = int (fix_influx_line_int s)
map_token t = t

unfoldable pub lexed : (List ℕ → Result (List Token)) → List ℕ → Result (List Token)
unfolding map_token
lexed lex content = lex content >>= (λ ts. ok (map map_token ts))

module _ {Float : Type 0} (to_uint : String → Option ℕ) (to_float : String → Option Float) where
  abbrev pub no_value : InfluxFieldValue Float
  no_value = record { int = none; float = none; boolean = none; string = none }

  abbrev pub int_value : Option ℕ → Option (InfluxFieldValue Float)
  int_value (some n) = some (record no_value { int = some n })
  int_value none = none

  abbrev pub float_value : Option Float → Option (InfluxFieldValue Float)
  float_value (some x) = some (record no_value { float = some x })
  float_value none = none

  -- The last two alternatives: only the texts of true are captured into Boolean.
  unfoldable pub text_value : String → InfluxFieldValue Float
  text_value s =
      if is_any s true_texts
      then record no_value { boolean = some true }
      else if is_any s false_texts
      then no_value
      else record no_value { string = some s }

  unfoldable pub field_value : Token → Option (InfluxFieldValue Float)
  unfolding text_value
  field_value (int s) = int_value (to_uint s)
  field_value (float s) = float_value (to_float s)
  field_value (string s) = some (text_value s)
  field_value (quoted_string s) = some (text_value s)
  field_value _ = none

  abbrev pub timed :
      String
      → List (String × String)
      → List (InfluxFieldSet Float)
      → Option ℕ
      → List Token
      → Option (InfluxLine Float × List Token)
  timed name tags fields (some t) ts =
      some (record { metric_name = name; tag_set = tags; field_set = fields; timestamp = t }, ts)
  timed name tags fields none ts = none

  -- Space @Float
  abbrev pub time_from :
      String
      → List (String × String)
      → List (InfluxFieldSet Float) × List Token
      → Option (InfluxLine Float × List Token)
  time_from name tags (fields, space ∷ float t ∷ ts) = timed name tags fields (to_uint t) ts
  time_from name tags _ = none

  unfoldable pub fields_after :
      String
      → List (String × String)
      → String
      → Option (InfluxFieldValue Float)
      → List Token
      → Option (InfluxLine Float × List Token)
  unfolding pairs_from
  fields_after name tags k (some v) ts =
      let more = pairs_from field_value ts in time_from name tags ((k, v) ∷ more.0, more.1)
  fields_after name tags k none ts = none

  -- Space @@ ( Comma @@ )*
  abbrev pub fields_from :
      String → List (String × String) × List Token → Option (InfluxLine Float × List Token)
  fields_from name (tags, space ∷ string k ∷ equals ∷ v ∷ ts) =
      fields_after name tags k (field_value v) ts
  fields_from name _ = none

  -- @String ( Comma @@ )*
  unfoldable pub named_line : List Token → Option (InfluxLine Float × List Token)
  unfolding pairs_from
  named_line (string name ∷ ts) = fields_from name (pairs_from tag_value ts)
  named_line _ = none

  unfoldable pub influx_line : List Token → Option (InfluxLine Float × List Token)
  influx_line (test_output_prefix ∷ ts) = named_line ts
  influx_line ts = named_line ts

  -- (Newline @@)*, on fuel.
  unfoldable pub lines_from : ℕ → List Token → List (InfluxLine Float) × List Token
  unfolding influx_line
  lines_from zero ts = ([], ts)
  lines_from (suc n) (newline ∷ ts) = elim (influx_line ts) [
    | none ↦ ([], newline ∷ ts)
    | some (line, rest) ↦ (line ∷ (lines_from n rest).0, (lines_from n rest).1)
  ]
  lines_from (suc n) ts = ([], ts)

  -- Newline?, and the end of the tokens.
  abbrev pub ended : List (InfluxLine Float) → List Token → Option (List (InfluxLine Float))
  ended lines [] = some lines
  ended lines (newline ∷ []) = some lines
  ended lines _ = none

  unfoldable pub first_line :
      Option (InfluxLine Float × List Token) → Option (List (InfluxLine Float))
  unfolding lines_from
  first_line none = none
  first_line (some (line, rest)) =
      let more = lines_from (length rest) rest in ended (line ∷ more.0) more.1

  unfoldable pub influx_lines : List Token → Option (List (InfluxLine Float))
  unfolding influx_line lines_from
  influx_lines ts = first_line (influx_line ts)

  -- influxLineParser. What the grammar does not accept is an error.
  abbrev pub accepted : Error → Option (List (InfluxLine Float)) → Result (List (InfluxLine Float))
  accepted e (some lines) = ok lines
  accepted e none = err e

  unfoldable pub influx_line_parser :
      (List ℕ → Result (List Token))
      → (List Token → Error)
      → List ℕ
      → Result (List (InfluxLine Float))
  unfolding influx_lines lexed
  influx_line_parser lex unexpected content =
      lexed lex content >>= (λ ts. accepted (unexpected ts) (influx_lines ts))
