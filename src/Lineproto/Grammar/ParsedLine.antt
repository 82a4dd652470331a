-- ===== src/Lineproto/Grammar/ParsedLine.antt =====
-- The grammar of lineproto/influx_line_protocol.go accepts written lines only: one line.
use salus_telemetry_envoy.Common.{
  nat_eq, string_eq, texts_eq, List, [], ◌∷◌, String, Bool, true, false, arith, ◌≡◌, refl, ap, ◌∙◌,
  ℕ, Option, none, some,
}
use mathlib.Core.Path.{subst}
use salus_telemetry_envoy.Lineproto.{InfluxFieldValue, InfluxFieldSet, InfluxLine}
use salus_telemetry_envoy.Lineproto.Grammar.{
  Token, float, string, comma, space, equals, test_output_prefix, tag_value, field_value, next_pair,
  pairs_from, timed, time_from, fields_after, fields_from, named_line, influx_line,
}
use salus_telemetry_envoy.Lineproto.Grammar.Written.{
  WrittenLine, print_pairs, print_prefix, print_line, read_pairs, written_line,
}

-- What the repetition has read, as pairs that stand before what it leaves.
record IsReadPairs {A : Type 0} (value : Token → Option A) (ts : List Token)
    (r : List (String × A) × List Token) : Type 0 where
  pub written : List (String × Token)
  pub printed : print_pairs written r.1 ≡ ts
  pub read : read_pairs value written ≡ some r.0

no_pairs : {A : Type 0} (value : Token → Option A) (ts : List Token) → IsReadPairs value ts ([], ts)
no_pairs value ts = record { written = []; printed = refl; read = refl }

next_pair-IsReadPairs :
    {A : Type 0} (value : Token → Option A) (k : String) (v : Token) (ts : List Token)
    (o : Option A) (r : List (String × A) × List Token)
    → value v ≡ o
    → IsReadPairs value ts r
    → IsReadPairs value
        (comma ∷ string k ∷ equals ∷ v ∷ ts)
        (next_pair k o r (comma ∷ string k ∷ equals ∷ v ∷ ts))
next_pair-IsReadPairs value k v ts none r e i = no_pairs value _
next_pair-IsReadPairs value k v ts (some a) r e i = record {
  written = (k, v) ∷ i.written;
  printed = ap (λ us. comma ∷ string k ∷ equals ∷ v ∷ us) i.printed;
  read = rw (e, i.read) refl;
}

pairs_from-IsReadPairs :
    {A : Type 0} (value : Token → Option A) (ts : List Token)
    → IsReadPairs value ts (pairs_from value ts)
unfolding pairs_from
pairs_from-IsReadPairs value (comma ∷ string k ∷ equals ∷ v ∷ ts) =
    next_pair-IsReadPairs value k v ts (value v) _ refl (pairs_from-IsReadPairs value ts)
pairs_from-IsReadPairs value ts = no_pairs value ts

pub some_inj : {A : Type 0} {a b : A} → some a ≡ some b → a ≡ b
some_inj h = cc h

module _ {Float : Type 0} (to_uint : String → Option ℕ) (to_float : String → Option Float) where
  pub record IsReadLine (ts : List Token) (r : InfluxLine Float × List Token) : Type 0 where
    pub written : WrittenLine
    pub printed : print_line written r.1 ≡ ts
    pub read : written_line to_uint to_float written ≡ some r.0

  -- The time of a line, and what stands before it.
  record IsTimed (name : String) (tags : List (String × String))
      (fields : List (InfluxFieldSet Float)) (ts : List Token) (r : InfluxLine Float × List Token)
      : Type 0 where
    pub time : String
    pub stamp : ℕ
    pub printed : space ∷ float time ∷ r.1 ≡ ts
    pub read : to_uint time ≡ some stamp
    pub made :
        record { metric_name = name; tag_set = tags; field_set = fields; timestamp = stamp } ≡ r.0

  timed-IsTimed :
      (name : String) (tags : List (String × String)) (fields : List (InfluxFieldSet Float))
      (time : String) (o : Option ℕ) (ts : List Token) (r : InfluxLine Float × List Token)
      → to_uint time ≡ o
      → timed to_uint to_float name tags fields o ts ≡ some r
      → IsTimed name tags fields (space ∷ float time ∷ ts) r
  timed-IsTimed name tags fields time none ts r e h = ground arith
  timed-IsTimed name tags fields time (some t) ts r e h =
      subst (IsTimed name tags fields (space ∷ float time ∷ ts)) (some_inj h)
        (record { time = time; stamp = t; printed = refl; read = e; made = refl })

  time_from-IsTimed :
      (name : String) (tags : List (String × String)) (fields : List (InfluxFieldSet Float))
      (ts : List Token) (r : InfluxLine Float × List Token)
      → time_from to_uint to_float name tags (fields, ts) ≡ some r
      → IsTimed name tags fields ts r
  time_from-IsTimed name tags fields (space ∷ float t ∷ ts) r h =
      timed-IsTimed name tags fields t (to_uint t) ts r refl h
  time_from-IsTimed name tags fields ts r h = ground arith

  fields_after-IsReadLine :
      (b : Bool) (name : String) (tokens : List (String × Token)) (tags : List (String × String))
      (k : String) (v : Token) (o : Option (InfluxFieldValue Float)) (ts : List Token)
      (r : InfluxLine Float × List Token)
      → read_pairs tag_value tokens ≡ some tags
      → field_value to_uint to_float v ≡ o
      → fields_after to_uint to_float name tags k o ts ≡ some r
      → IsReadLine
          (print_prefix b (string name ∷ print_pairs tokens (space ∷ string k ∷ equals ∷ v ∷ ts)))
          r
  unfolding fields_after
  fields_after-IsReadLine b name tokens tags k v none ts r g e h = ground arith
  fields_after-IsReadLine b name tokens tags k v (some a) ts r g e h =
      let more = pairs_from-IsReadPairs (field_value to_uint to_float) ts in
      let timed = time_from-IsTimed name tags ((k, a) ∷ _) _ r h in
      record {
        written = record {
          prefixed = b;
          name = name;
          tags = tokens;
          key = k;
          value = v;
          more = more.written;
          time = timed.time;
        };
        printed =
            ap
              (λ us.
                print_prefix b
                  (string name ∷ print_pairs tokens (space ∷ string k ∷ equals ∷ v ∷ us)))
              (ap (print_pairs more.written) timed.printed ∙ more.printed);
        read = rw (g, e, more.read, timed.read) (ap some timed.made);
      }

  fields_from-IsReadLine :
      (b : Bool) (name : String) (tokens : List (String × Token)) (tags : List (String × String))
      (ts : List Token) (r : InfluxLine Float × List Token)
      → read_pairs tag_value tokens ≡ some tags
      → fields_from to_uint to_float name (tags, ts) ≡ some r
      → IsReadLine (print_prefix b (string name ∷ print_pairs tokens ts)) r
  fields_from-IsReadLine b name tokens tags (space ∷ string k ∷ equals ∷ v ∷ ts) r g h =
      fields_after-IsReadLine b name tokens tags k v _ ts r g refl h
  fields_from-IsReadLine b name tokens tags ts r g h = ground arith

  named_line-IsReadLine :
      (b : Bool) (ts : List Token) (r : InfluxLine Float × List Token)
      → named_line to_uint to_float ts ≡ some r
      → IsReadLine (print_prefix b ts) r
  unfolding named_line
  named_line-IsReadLine b (string name ∷ ts) r h =
      let tags = pairs_from-IsReadPairs tag_value ts in
      subst (λ us. IsReadLine (print_prefix b (string name ∷ us)) r) tags.printed
        (fields_from-IsReadLine b name tags.written _ _ r tags.read h)
  named_line-IsReadLine b ts r h = ground arith

  pub influx_line-IsReadLine :
      (ts : List Token) (r : InfluxLine Float × List Token)
      → influx_line to_uint to_float ts ≡ some r
      → IsReadLine ts r
  unfolding influx_line
  influx_line-IsReadLine (test_output_prefix ∷ ts) r h = named_line-IsReadLine true ts r h
  influx_line-IsReadLine ts r h = named_line-IsReadLine false ts r h
