-- ===== src/Examples/Lines.antt =====
-- The theorems on the line protocol's grammar and on the end of the Envoy at concrete inputs.
use salus_telemetry_envoy.Common.{
  ◌==◌, nat_eq, string_eq, texts_eq, ◌++◌, List, [], ◌∷◌, map, String, if◌then◌else◌, true, false,
  ◌≡◌, ◌⊎◌, ◌↔◌, refl, ℕ, ◌<◌, Option, none, some, length, drop,
}
use salus_telemetry_envoy.Common.Result.{err, Result, ok, Error, message}
use salus_telemetry_envoy.Lineproto.{
  parse_influx_line_protocol_metrics, InfluxLine, fix_influx_line_int,
}
use salus_telemetry_envoy.Lineproto.Grammar.{
  influx_line_parser, Token, int, float, string, comma, space, equals, newline, influx_lines,
  influx_line, named_line, pairs_from, tag_value, field_value, fields_after, first_line, lines_from,
  lexed, map_token,
}
use salus_telemetry_envoy.Lineproto.Grammar.Written.{print_more, WrittenLine, print_line}
use salus_telemetry_envoy.Lineproto.Grammar.Signed.{is_signed, signed_int_lem}
use salus_telemetry_envoy.Lineproto.Grammar.Parsed.{IsGenerated, influx_lines-IsGenerated}
use salus_telemetry_envoy.Lineproto.Grammar.Booleans.{
  with_boolean, with_kept, metrics, boolean_field_lem,
}
use salus_telemetry_envoy.Commands.Shutdown.{
  Child, ended, signalled, unnotified, exit_delay, is_before, shutdown, total, all_over, no_kill,
  shutdown_lem,
}

-- Integers by their number of digits, and no floats.
abbrev to_uint : String → Option ℕ
to_uint s = if s == "" then none else some (if s == "12" then 12 else 5)

abbrev to_float : String → Option ℕ
to_float s = none

-- cpu,host=h1 usage=5i 12
abbrev cpu_written : WrittenLine
cpu_written = record {
  prefixed = false;
  name = "cpu";
  tags = ("host", string "h1") ∷ [];
  key = "usage";
  value = int "5";
  more = [];
  time = "12";
}

abbrev cpu_tokens : List Token
cpu_tokens =
    string "cpu"
    ∷ comma
    ∷ string "host"
    ∷ equals
    ∷ string "h1"
    ∷ space
    ∷ string "usage"
    ∷ equals
    ∷ int "5"
    ∷ space
    ∷ float "12"
    ∷ newline
    ∷ []

abbrev cpu_parsed : InfluxLine ℕ
cpu_parsed = record {
  metric_name = "cpu";
  tag_set = ("host", "h1") ∷ [];
  field_set = ("usage", record { int = some 5; float = none; boolean = none; string = none }) ∷ [];
  timestamp = 12;
}

influx_lines-IsGenerated_example :
    (influx_lines to_uint to_float cpu_tokens ≡ some (cpu_parsed ∷ []))
    ↔ IsGenerated to_uint to_float cpu_tokens (cpu_parsed ∷ [])
influx_lines-IsGenerated_example =
    influx_lines-IsGenerated to_uint to_float cpu_tokens (cpu_parsed ∷ [])

cpu_is_parsed : influx_lines to_uint to_float cpu_tokens ≡ some (cpu_parsed ∷ [])
unfolding influx_lines influx_line named_line pairs_from tag_value field_value fields_after
    first_line lines_from
cpu_is_parsed = refl

abbrev identity : ℕ → ℕ
identity n = n

-- A lexer for two contents: with the field up=f, and without.
abbrev toy_lex : List ℕ → Result (List Token)
toy_lex [] = ok (print_line (with_kept cpu_written [] false "up" []) [])
toy_lex (c ∷ rest) = ok (print_line (with_boolean cpu_written [] "up" false "f" []) [])

abbrev unexpected : List Token → Error
unexpected ts = message "unexpected token"

boolean_field_lem_example :
    metrics identity to_uint to_float toy_lex unexpected (102 ∷ [])
    ≡ metrics identity to_uint to_float toy_lex unexpected []
unfolding lexed map_token fix_influx_line_int
boolean_field_lem_example =
    boolean_field_lem identity to_uint to_float toy_lex unexpected false "f" "up" false cpu_written
      [] [] (102 ∷ []) [] refl refl refl

-- Numbers without a sign.
abbrev to_unsigned : String → Option ℕ
to_unsigned s = if is_signed s then none else some 5

signed_is_none : (s : String) → is_signed s ≡ true → to_unsigned s ≡ none
signed_is_none s e = rw e refl

-- temp,host=h1 now=-5i 12
abbrev temp_written : WrittenLine
temp_written = record cpu_written { name = "temp"; value = int "-5" }

abbrev two_lines : List ℕ → Result (List Token)
two_lines content = ok (print_line cpu_written (print_more (temp_written ∷ []) true))

signed_int_lem_example :
    parse_influx_line_protocol_metrics identity
      (influx_line_parser to_unsigned to_float two_lines unexpected)
      []
    ≡ err (unexpected (print_line cpu_written (print_more (temp_written ∷ []) true)))
unfolding lexed map_token fix_influx_line_int
signed_int_lem_example =
    signed_int_lem identity to_unsigned to_float two_lines unexpected [] cpu_written temp_written
      (temp_written ∷ []) (cpu_written ∷ []) [] true "usage" "-5" [] [] signed_is_none refl refl
      refl refl

-- Four agents with the default termination timeout of 5 seconds: the second does not end.
abbrev before_stuck : List Child
before_stuck = some 300 ∷ none ∷ []

abbrev after_stuck : List Child
after_stuck = some 200 ∷ some 100 ∷ []

shutdown_lem_example :
    (all_over 5000 (shutdown 5000 (before_stuck ++ after_stuck))
      ≡ is_before (total 5000 (before_stuck ++ after_stuck)) exit_delay)
    × ((total 5000 before_stuck < exit_delay)
        ⊎ (drop (length before_stuck) (shutdown 5000 (before_stuck ++ after_stuck))
            ≡ map (λ c. unnotified) after_stuck))
    × ((5000 < exit_delay) ⊎ (no_kill 5000 (shutdown 5000 (before_stuck ++ after_stuck)) ≡ true))
shutdown_lem_example = shutdown_lem 5000 before_stuck after_stuck

stuck_agent :
    shutdown 5000 (before_stuck ++ after_stuck) ≡ ended ∷ signalled ∷ unnotified ∷ unnotified ∷ []
unfolding shutdown
stuck_agent = refl
