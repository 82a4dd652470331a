-- ===== src/Lineproto/Fields.antt =====
-- Which values of a line its metric has.
use salus_telemetry_envoy.Common.{
  ◌==◌, nat_eq, string_eq, texts_eq, List, [], ◌∷◌, String, if◌then◌else◌, Bool, true, false, arith,
  ◌≡◌, refl, ap, ◌∙◌, ℕ, ◌/◌, ◌^◌, ◌<◌, Option, none, some,
}
use text.Mathlib.TextLemmas.{cons-append}
use Prim.Native.String.{◌++◌ as ◌++s◌}
use salus_telemetry_envoy.Common.Assoc.{Assoc, lookup, insert, lookup-insert}
use salus_telemetry_envoy.Protocol.{NameTagValueMetric}
use salus_telemetry_envoy.Lineproto.{
  InfluxFieldValue, InfluxFieldSet, InfluxLine, fix_influx_line_int, Stored, as_string, as_float,
  unstored, stored_as, stored_value, store, store_fields, store_tags, to_metric,
}

module _ {Float : Type 0} (of_uint : ℕ → Float) where
  abbrev float_of : Stored Float → Option Float → Option Float
  float_of (as_float x) d = some x
  float_of _ d = d

  abbrev string_of : Stored Float → Option String → Option String
  string_of (as_string s) d = some s
  string_of _ d = d

  -- The first value of two, if any.
  abbrev pub or_else {ℓ} : {A : Type ℓ} → Option A → Option A → Option A
  or_else none d = d
  or_else (some a) d = some a

  abbrev pub text_of_bool : Option Bool → Option String
  text_of_bool none = none
  text_of_bool (some true) = some "true"
  text_of_bool (some false) = some "false"

  abbrev pub float_of_int : Option ℕ → Option Float
  float_of_int none = none
  float_of_int (some n) = some (of_uint n)

  -- The text of a field is its string, or its Boolean written out; its number is its float, or its
  -- integer as one, if it has no text.
  abbrev pub text_of : InfluxFieldValue Float → Option String
  text_of v = or_else v.string (text_of_bool v.boolean)

  abbrev pub number_unless : Option String → Option Float → Option Float
  number_unless (some s) d = none
  number_unless none d = d

  abbrev pub number_of : InfluxFieldValue Float → Option Float
  number_of v = number_unless (text_of v) (or_else v.float (float_of_int v.int))

  number-stored_value :
      (s : Option String) (b : Option Bool) (f : Option Float) (i : Option ℕ) (d : Option Float)
      → float_of (stored_value of_uint s b f i) d
        ≡ or_else (number_unless (or_else s (text_of_bool b)) (or_else f (float_of_int i))) d
  number-stored_value (some s) b f i d = refl
  number-stored_value none (some true) f i d = refl
  number-stored_value none (some false) f i d = refl
  number-stored_value none none (some f) i d = refl
  number-stored_value none none none (some n) d = refl
  number-stored_value none none none none d = refl

  text-stored_value :
      (s : Option String) (b : Option Bool) (f : Option Float) (i : Option ℕ) (d : Option String)
      → string_of (stored_value of_uint s b f i) d ≡ or_else (or_else s (text_of_bool b)) d
  text-stored_value (some s) b f i d = refl
  text-stored_value none (some true) f i d = refl
  text-stored_value none (some false) f i d = refl
  text-stored_value none none (some f) i d = refl
  text-stored_value none none none (some n) d = refl
  text-stored_value none none none none d = refl

  -- The number of the last field named k that has one, and the text of the last that has one.
  abbrev pub last_float : String → List (InfluxFieldSet Float) → Option Float → Option Float
  last_float k [] d = d
  last_float k ((j, v) ∷ rest) d = last_float k rest (if j == k then or_else (number_of v) d else d)

  abbrev pub last_string : String → List (InfluxFieldSet Float) → Option String → Option String
  last_string k [] d = d
  last_string k ((j, v) ∷ rest) d = last_string k rest (if j == k then or_else (text_of v) d else d)

  abbrev pub last_tag : String → List (String × String) → Option String → Option String
  last_tag k [] d = d
  last_tag k ((j, v) ∷ rest) d = last_tag k rest (if j == k then some v else d)

  lookup-store_float :
      (j k : String) (s : Stored Float) (m : Assoc String Float × Assoc String String)
      → lookup k (store of_uint j s m).0
        ≡ (if j == k then float_of s (lookup k m.0) else lookup k m.0)
  lookup-store_float j k (as_float x) (f, t) = lookup-insert j k x f
  lookup-store_float j k (as_string x) (f, t) = ground arith
  lookup-store_float j k unstored (f, t) = ground arith

  lookup-store_string :
      (j k : String) (s : Stored Float) (m : Assoc String Float × Assoc String String)
      → lookup k (store of_uint j s m).1
        ≡ (if j == k then string_of s (lookup k m.1) else lookup k m.1)
  lookup-store_string j k (as_string x) (f, t) = lookup-insert j k x t
  lookup-store_string j k (as_float x) (f, t) = ground arith
  lookup-store_string j k unstored (f, t) = ground arith

  lookup-store_fields_float :
      (k : String) (fields : List (InfluxFieldSet Float))
      (m : Assoc String Float × Assoc String String)
      → lookup k (store_fields of_uint fields m).0 ≡ last_float k fields (lookup k m.0)
  unfolding store_fields stored_as
  lookup-store_fields_float k [] m = refl
  lookup-store_fields_float k ((j, v) ∷ rest) m =
      lookup-store_fields_float k rest (store of_uint j (stored_as of_uint v) m)
      ∙ ap (last_float k rest) (
          lookup-store_float j k (stored_as of_uint v) m
          ∙ ap (λ (x : Option Float). if j == k then x else lookup k m.0)
              (number-stored_value v.string v.boolean v.float v.int (lookup k m.0)))

  lookup-store_fields_string :
      (k : String) (fields : List (InfluxFieldSet Float))
      (m : Assoc String Float × Assoc String String)
      → lookup k (store_fields of_uint fields m).1 ≡ last_string k fields (lookup k m.1)
  unfolding store_fields stored_as
  lookup-store_fields_string k [] m = refl
  lookup-store_fields_string k ((j, v) ∷ rest) m =
      lookup-store_fields_string k rest (store of_uint j (stored_as of_uint v) m)
      ∙ ap (last_string k rest) (
          lookup-store_string j k (stored_as of_uint v) m
          ∙ ap (λ (x : Option String). if j == k then x else lookup k m.1)
              (text-stored_value v.string v.boolean v.float v.int (lookup k m.1)))

  lookup-store_tags :
      (k : String) (tags : List (String × String)) (m : Assoc String String)
      → lookup k (store_tags of_uint tags m) ≡ last_tag k tags (lookup k m)
  unfolding store_tags
  lookup-store_tags k [] m = refl
  lookup-store_tags k ((j, v) ∷ rest) m =
      lookup-store_tags k rest (insert j v m) ∙ ap (last_tag k rest) (lookup-insert j k v m)

  -- What the metric of a line holds under a name.
  pub record Holds (line : InfluxLine Float) (k : String) (metric : NameTagValueMetric Float)
      : Type 0 where
    pub float : lookup k metric.fvalues ≡ last_float k line.field_set none
    pub text : lookup k metric.svalues ≡ last_string k line.field_set none
    pub tag : lookup k metric.tags ≡ last_tag k line.tag_set none
    pub milliseconds : metric.timestamp ≡ line.timestamp / 1_000_000
    pub positive : metric.timestamp < 2 ^ 63

  -- Under each name the metric of a line has the number of the line's last field of that name with
  -- a number, an integer as a float, the text or Boolean of the last with one, and the value of the last tag; and its
  -- timestamp is in milliseconds, no bit of it lost, and not negative as an int64.
  pub to_metric-Holds :
      (line : InfluxLine Float) (k : String)
      → line.timestamp < 2 ^ 64
      → Holds line k (to_metric of_uint line)
  unfolding to_metric lookup
  to_metric-Holds line k h = record {
    float = lookup-store_fields_float k line.field_set ([], []);
    text = lookup-store_fields_string k line.field_set ([], []);
    tag = lookup-store_tags k line.tag_set [];
    milliseconds = omega arith;
    positive = omega arith;
  }

-- An integer's token loses exactly its trailing "i".
pub fix_influx_line_int-append : (s : String) → fix_influx_line_int (s ++s "i") ≡ s
unfolding fix_influx_line_int
fix_influx_line_int-append String.[] = refl
fix_influx_line_int-append (String.◌∷◌ c String.[]) = rw cons-append refl
fix_influx_line_int-append (String.◌∷◌ c (String.◌∷◌ d s)) =
    let ih = rw cons-append at (fix_influx_line_int-append (String.◌∷◌ d s)) in
    rw (cons-append c (String.◌∷◌ d s) "i", cons-append d s "i") (ap (String.◌∷◌ c) ih)
