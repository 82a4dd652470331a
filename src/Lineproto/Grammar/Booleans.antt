-- ===== src/Lineproto/Grammar/Booleans.antt =====
-- Fields of lineproto/influx_line_protocol.go with one of the texts that the grammar takes for a
-- Boolean.
use salus_telemetry_envoy.Common.{
  ◌==◌, nat_eq, string_eq, texts_eq, ◌++◌, List, [], ◌∷◌, String, if◌then◌else◌, Bool, true, false,
  arith, ◌≡◌, inl, inr, refl, sym, ap, ◌∙◌, not, ◌&&◌, ℕ, Option, none, some, Bool-cases,
  Option-cases,
}
use mathlib.Core.Option
use salus_telemetry_envoy.Protocol.{NameTagValueMetric}
use salus_telemetry_envoy.Common.Assoc.{Assoc}
use salus_telemetry_envoy.Common.Result.{Result, ok, err, Error}
use salus_telemetry_envoy.Lineproto.{
  InfluxFieldValue, InfluxFieldSet, InfluxLine, as_string, unstored, store, stored_as, store_fields,
  to_metric, to_metrics, parse_influx_line_protocol_metrics,
}
use salus_telemetry_envoy.Lineproto.Grammar.{
  Token, quoted_string, string, is_any, true_texts, false_texts, text_value, field_value, tag_value,
  influx_lines, lexed, influx_line_parser,
}
use salus_telemetry_envoy.Lineproto.Grammar.Written.{WrittenLine, print_line, with_read, read_pairs}
use salus_telemetry_envoy.Lineproto.Grammar.Printed.{influx_lines-print}

-- The texts of a Boolean, and the field that a metric has for one.
abbrev pub boolean_texts : Bool → List String
boolean_texts b = if b then true_texts else false_texts

abbrev pub kept : Bool → String → List (String × Token)
kept b k = if b then (k, string "true") ∷ [] else []

abbrev none_of : List String → List String → Bool
none_of [] us = true
none_of (t ∷ ts) us = not (is_any t us) && none_of ts us

-- A line with a field of the text among its others, and with what is kept of it.
abbrev pub with_boolean :
    WrittenLine
    → List (String × Token)
    → String
    → Bool
    → String
    → List (String × Token)
    → WrittenLine
with_boolean l before k quoted s after = record l {
  more = before ++ ((k, if quoted then quoted_string s else string s) ∷ after);
}

abbrev pub with_kept :
    WrittenLine → List (String × Token) → Bool → String → List (String × Token) → WrittenLine
with_kept l before b k after = record l { more = before ++ (kept b k ++ after) }

abbrev pub success : {A : Type 0} → Result A → Option A
success (ok a) = some a
success (err e) = none

is_any-none_of :
    (s : String) (ts us : List String)
    → none_of ts us ≡ true
    → is_any s ts ≡ true
    → is_any s us ≡ false
is_any-none_of s [] us d h = ground arith
is_any-none_of s (t ∷ ts) us d h = elim (Bool-cases (s == t)) [
  | inl e ↦ rw ((string_eq.same_iff s t).0 e) (ground (arith, d))
  | inr e ↦ is_any-none_of s ts us (ground (arith, d)) (ground (arith, h, e))
]

-- The pairs of fields after which the same is stored, where both are there.
data AreAlike {F : Type 0} (go : F → F → Type 0) : Option F → Option F → Type 0 where
  both_none : AreAlike go none none
  both_some : {x y : F} → go x y → AreAlike go (some x) (some y)

module _ {Float : Type 0} (of_uint : ℕ → Float) (to_uint : String → Option ℕ)
    (to_float : String → Option Float) where
  -- The value of such a text is stored as the text true or not at all.
  text_value-stored :
      (b : Bool) (s : String)
      → is_any s (boolean_texts b) ≡ true
      → stored_as of_uint (text_value to_uint to_float s)
        ≡ (if b then as_string "true" else unstored)
  unfolding stored_as text_value
  text_value-stored true s h = ground arith
  text_value-stored false s h = rw (is_any-none_of s false_texts true_texts refl h, h) refl

  -- Fields that are stored alike.
  abbrev StoreAlike : List (InfluxFieldSet Float) → List (InfluxFieldSet Float) → Type 0
  StoreAlike x y =
      (m : Assoc String Float × Assoc String String)
      → store_fields of_uint x m ≡ store_fields of_uint y m

  abbrev value_of : Token → Option (InfluxFieldValue Float)
  value_of = field_value to_uint to_float

  next-AreAlike :
      (k : String) (o : Option (InfluxFieldValue Float))
      (x y : Option (List (InfluxFieldSet Float)))
      → AreAlike StoreAlike x y
      → AreAlike StoreAlike
          (with_read o (λ v. with_read x (λ fields. some ((k, v) ∷ fields))))
          (with_read o (λ v. with_read y (λ fields. some ((k, v) ∷ fields))))
  unfolding store_fields
  next-AreAlike k none x y a = both_none
  next-AreAlike k (some v) none none both_none = both_none
  next-AreAlike k (some v) none (some y) a = elim a [ ]
  next-AreAlike k (some v) (some x) none a = elim a [ ]
  next-AreAlike k (some v) (some x) (some y) (both_some e) = both_some (λ m. e _)

  -- A Boolean in front of fields.
  front-AreAlike :
      (b : Bool) (k : String) (v : InfluxFieldValue Float)
      (o : Option (List (InfluxFieldSet Float)))
      → stored_as of_uint v ≡ (if b then as_string "true" else unstored)
      → AreAlike StoreAlike (with_read o (λ fields. some ((k, v) ∷ fields))) (
          if b
          then with_read o (λ fields. some ((k, text_value to_uint to_float "true") ∷ fields))
          else o)
  unfolding store_fields text_value
  front-AreAlike true k v none e = both_none
  front-AreAlike false k v none e = both_none
  front-AreAlike true k v (some fields) e = both_some (λ m. rw e refl)
  front-AreAlike false k v (some fields) e = both_some (λ m. rw e refl)

  text-value_of :
      (quoted : Bool) (s : String)
      → value_of (if quoted then quoted_string s else string s)
        ≡ some (text_value to_uint to_float s)
  unfolding field_value
  text-value_of true s = refl
  text-value_of false s = refl

  boolean-AreAlike :
      (b : Bool) (s k : String) (quoted : Bool) (before after : List (String × Token))
      → is_any s (boolean_texts b) ≡ true
      → AreAlike StoreAlike
          (read_pairs value_of
            (before ++ ((k, if quoted then quoted_string s else string s) ∷ after)))
          (read_pairs value_of (before ++ (kept b k ++ after)))
  unfolding field_value
  boolean-AreAlike true s k quoted [] after h =
      rw (text-value_of quoted s)
        (front-AreAlike true k _ (read_pairs value_of after) (text_value-stored true s h))
  boolean-AreAlike false s k quoted [] after h =
      rw (text-value_of quoted s)
        (front-AreAlike false k _ (read_pairs value_of after) (text_value-stored false s h))
  boolean-AreAlike b s k quoted ((j, w) ∷ before) after h =
      next-AreAlike j (value_of w) _ _ (boolean-AreAlike b s k quoted before after h)

  -- The metrics that become of tokens.
  abbrev pub metrics_of : List Token → Option (List (NameTagValueMetric Float))
  unfolding influx_lines to_metrics
  metrics_of ts = Option.map (to_metrics of_uint) (influx_lines to_uint to_float ts)

  -- A line of what was read for its parts.
  abbrev line_of :
      WrittenLine
      → Option (List (String × String))
      → Option (InfluxFieldValue Float)
      → Option ℕ
      → Option (List (InfluxFieldSet Float))
      → Option (List (InfluxLine Float))
  line_of l tags v t more =
      with_read
        (with_read tags (λ tags. with_read v (λ v. with_read more (λ more. with_read t (λ t.
          some (record {
            metric_name = l.name;
            tag_set = tags;
            field_set = (l.key, v) ∷ more;
            timestamp = t;
          }))))))
        (λ line. some (line ∷ []))

  line_of-alike :
      (l : WrittenLine) (tags : Option (List (String × String)))
      (v : Option (InfluxFieldValue Float)) (t : Option ℕ)
      (x y : Option (List (InfluxFieldSet Float)))
      → AreAlike StoreAlike x y
      → Option.map (to_metrics of_uint) (line_of l tags v t x)
        ≡ Option.map (to_metrics of_uint) (line_of l tags v t y)
  unfolding to_metrics to_metric store_fields
  line_of-alike l none v t x y a = refl
  line_of-alike l (some tags) none t x y a = refl
  line_of-alike l (some tags) (some v) t none none both_none = refl
  line_of-alike l (some tags) (some v) t none (some y) a = elim a [ ]
  line_of-alike l (some tags) (some v) t (some x) none a = elim a [ ]
  line_of-alike l (some tags) (some v) none (some x) (some y) a = refl
  line_of-alike l (some tags) (some v) (some t) (some x) (some y) (both_some e) =
      rw (e (store of_uint l.key (stored_as of_uint v) ([], []))) refl

  boolean_tokens-alike :
      (b : Bool) (s k : String) (quoted : Bool) (l : WrittenLine)
      (before after : List (String × Token))
      → is_any s (boolean_texts b) ≡ true
      → metrics_of (print_line (with_boolean l before k quoted s after) [])
        ≡ metrics_of (print_line (with_kept l before b k after) [])
  unfolding metrics_of influx_lines
  boolean_tokens-alike b s k quoted l before after h =
      ap (Option.map (to_metrics of_uint))
        (influx_lines-print to_uint to_float (with_boolean l before k quoted s after) [] false)
      ∙ line_of-alike l (read_pairs tag_value l.tags) (value_of l.value) (to_uint l.time) _ _
          (boolean-AreAlike b s k quoted before after h)
      ∙ sym (
          ap (Option.map (to_metrics of_uint))
            (influx_lines-print to_uint to_float (with_kept l before b k after) [] false))

  module _ (lex : List ℕ → Result (List Token)) (unexpected : List Token → Error) where
    -- What ParseInfluxLineProtocolMetrics returns for a content, if it is no error.
    abbrev pub metrics : List ℕ → Option (List (NameTagValueMetric Float))
    unfolding parse_influx_line_protocol_metrics influx_line_parser
    metrics content = success (
        parse_influx_line_protocol_metrics of_uint
          (influx_line_parser to_uint to_float lex unexpected) content)

    metrics-metrics_of :
        (content : List ℕ) (ts : List Token)
        → lexed lex content ≡ ok ts
        → metrics content ≡ metrics_of ts
    unfolding metrics metrics_of parse_influx_line_protocol_metrics influx_line_parser
    metrics-metrics_of content ts e = elim (Option-cases (influx_lines to_uint to_float ts)) [
      | inl n ↦ rw (e, n) refl
      | inr (lines, n) ↦ rw (e, n) refl
    ]

    -- Where a field of a line, not the first, has the text of a Boolean, in quotes or not: the
    -- metrics are those of the same line with the text true for t, T, True and TRUE, and those of
    -- the line without the field for f, F, False and FALSE.
    pub boolean_field_lem :
        (b : Bool) (s k : String) (quoted : Bool) (l : WrittenLine)
        (before after : List (String × Token)) (given other : List ℕ)
        → is_any s (boolean_texts b) ≡ true
        → lexed lex given ≡ ok (print_line (with_boolean l before k quoted s after) [])
        → lexed lex other ≡ ok (print_line (with_kept l before b k after) [])
        → metrics given ≡ metrics other
    boolean_field_lem b s k quoted l before after given other h e f =
        metrics-metrics_of given _ e
        ∙ boolean_tokens-alike b s k quoted l before after h
        ∙ sym (metrics-metrics_of other _ f)
