-- ===== src/Lineproto/Grammar/Printed.antt =====
-- The grammar of lineproto/influx_line_protocol.go reads written lines as what they are written for.
use salus_telemetry_envoy.Common.{
  nat_eq, string_eq, texts_eq, List, [], ◌∷◌, String, Bool, true, false, arith, ◌≡◌, inl, inr, refl,
  sym, ◌∙◌, ℕ, zero, suc, ◌≤◌, Option, none, some, length, Bool-cases, Option-cases,
}
use salus_telemetry_envoy.Lineproto.{InfluxFieldValue, InfluxFieldSet, InfluxLine}
use salus_telemetry_envoy.Lineproto.Grammar.{
  Token, float, string, comma, space, equals, newline, tag_value, field_value, pairs_from, timed,
  time_from, fields_after, fields_from, named_line, influx_line, lines_from, ended, first_line,
  influx_lines,
}
use salus_telemetry_envoy.Lineproto.Grammar.Written.{
  WrittenLine, print_pairs, print_line, print_more, with_read, read_pairs, written_line,
  written_lines,
}

with_read-ext :
    {A B : Type 0} (o : Option A) (f g : A → Option B)
    → ((a : A) → f a ≡ g a)
    → with_read o f ≡ with_read o g
with_read-ext none f g e = refl
with_read-ext (some a) f g e = e a

with_read-four :
    {A B C D X Y : Type 0} (a : Option A) (b : Option B) (c : Option C) (d : Option D)
    (f : A → B → C → D → X) (g : X → Option Y)
    → with_read
        (with_read a
          (λ x. with_read b (λ y. with_read c (λ z. with_read d (λ t. some (f x y z t))))))
        g
      ≡ with_read a (λ x. with_read b (λ y. with_read c (λ z. with_read d (λ t. g (f x y z t)))))
with_read-four none b c d f g = refl
with_read-four (some x) none c d f g = refl
with_read-four (some x) (some y) none d f g = refl
with_read-four (some x) (some y) (some z) none f g = refl
with_read-four (some x) (some y) (some z) (some t) f g = refl

with_read-with_read :
    {A B C : Type 0} (o : Option A) (f : A → Option B) (g : B → Option C)
    → with_read (with_read o f) g ≡ with_read o (λ a. with_read (f a) g)
with_read-with_read none f g = refl
with_read-with_read (some a) f g = refl

with_read-none : {A B : Type 0} (o : Option A) → with_read {B = B} o (λ a. none) ≡ none
with_read-none none = refl
with_read-none (some a) = refl

-- The repetition over written pairs: what goes on after it does not go on at a comma.
pairs_from-print :
    {A C : Type 0} (value : Token → Option A) (go : List (String × A) × List Token → Option C)
    → ((pairs : List (String × A)) (ts : List Token) → go (pairs, comma ∷ ts) ≡ none)
    → (ps : List (String × Token)) (ts : List Token)
    → go (pairs_from value (print_pairs ps (space ∷ ts)))
      ≡ with_read (read_pairs value ps) (λ pairs. go (pairs, space ∷ ts))
unfolding pairs_from
pairs_from-print value go stops [] ts = refl
pairs_from-print {A} value go stops ((k, v) ∷ rest) ts = elim (Option-cases (value v)) [
  | inl e ↦ rw e (stops [] _)
  | inr (a, e) ↦ rw e (
      pairs_from-print value (λ r. go ((k, a) ∷ r.0, r.1)) (λ pairs us. stops ((k, a) ∷ pairs) us)
        rest ts
      ∙ sym (
          with_read-with_read (read_pairs value rest) (λ pairs. some ((k, a) ∷ pairs))
            (λ pairs. go (pairs, space ∷ ts))))
]

length-print_pairs :
    (ps : List (String × Token)) (ts : List Token) → length ts ≤ length (print_pairs ps ts)
length-print_pairs [] ts = omega arith
length-print_pairs ((k, v) ∷ rest) ts = omega (arith, length-print_pairs rest ts)

length-print_line : (l : WrittenLine) (ts : List Token) → length ts ≤ length (print_line l ts)
length-print_line l ts =
    let more = length-print_pairs l.more (space ∷ float l.time ∷ ts) in
    let tags =
      length-print_pairs l.tags (
        space ∷ string l.key ∷ equals ∷ l.value ∷ print_pairs l.more (space ∷ float l.time ∷ ts)) in
    elim (Bool-cases l.prefixed) [
      | inl e ↦ rw e (omega (arith, more, tags))
      | inr e ↦ rw e (omega (arith, more, tags))
    ]

module _ {Float : Type 0} (to_uint : String → Option ℕ) (to_float : String → Option Float) where
  timed-read :
      (name : String) (tags : List (String × String)) (fields : List (InfluxFieldSet Float))
      (o : Option ℕ) (ts : List Token)
      → timed to_uint to_float name tags fields o ts
        ≡ with_read o (λ t.
          some
            (record { metric_name = name; tag_set = tags; field_set = fields; timestamp = t }, ts))
  timed-read name tags fields none ts = refl
  timed-read name tags fields (some t) ts = refl

  fields_after-print :
      (name : String) (tags : List (String × String)) (k : String)
      (o : Option (InfluxFieldValue Float)) (more : List (String × Token)) (time : String)
      (ts : List Token)
      → fields_after to_uint to_float name tags k o (print_pairs more (space ∷ float time ∷ ts))
        ≡ with_read o (λ v. with_read (read_pairs (field_value to_uint to_float) more) (λ fields.
          with_read (to_uint time) (λ t. some (
            record {
              metric_name = name;
              tag_set = tags;
              field_set = (k, v) ∷ fields;
              timestamp = t;
            },
            ts,
          ))))
  unfolding fields_after
  fields_after-print name tags k none more time ts = refl
  fields_after-print name tags k (some v) more time ts =
      pairs_from-print (field_value to_uint to_float)
        (λ r. time_from to_uint to_float name tags ((k, v) ∷ r.0, r.1)) (λ pairs us. refl) more
        (float time ∷ ts)
      ∙ with_read-ext (read_pairs (field_value to_uint to_float) more) _ _
          (λ fields. timed-read name tags ((k, v) ∷ fields) (to_uint time) ts)

  named_line-print :
      (l : WrittenLine) (ts : List Token)
      → named_line to_uint to_float (
          string l.name
          ∷ print_pairs l.tags (
              space
              ∷ string l.key
              ∷ equals
              ∷ l.value
              ∷ print_pairs l.more (space ∷ float l.time ∷ ts)))
        ≡ with_read (written_line to_uint to_float l) (λ line. some (line, ts))
  unfolding named_line
  named_line-print l ts =
      pairs_from-print tag_value (fields_from to_uint to_float l.name) (λ pairs us. refl) l.tags
        (string l.key ∷ equals ∷ l.value ∷ print_pairs l.more (space ∷ float l.time ∷ ts))
      ∙ with_read-ext (read_pairs tag_value l.tags) _ _ (λ tags.
        fields_after-print l.name tags l.key (field_value to_uint to_float l.value) l.more l.time
          ts)
      ∙ sym (
          with_read-four (read_pairs tag_value l.tags) (field_value to_uint to_float l.value)
            (read_pairs (field_value to_uint to_float) l.more) (to_uint l.time)
            (λ tags v more t. record {
              metric_name = l.name;
              tag_set = tags;
              field_set = (l.key, v) ∷ more;
              timestamp = t;
            })
            (λ line. some (line, ts)))

  influx_line-print :
      (l : WrittenLine) (ts : List Token)
      → influx_line to_uint to_float (print_line l ts)
        ≡ with_read (written_line to_uint to_float l) (λ line. some (line, ts))
  unfolding influx_line
  influx_line-print l ts = elim (Bool-cases l.prefixed) [
    | inl e ↦ rw e (named_line-print l ts)
    | inr e ↦ rw e (named_line-print l ts)
  ]

  influx_line-nil : influx_line to_uint to_float [] ≡ none
  unfolding influx_line named_line
  influx_line-nil = refl

  -- The repetition over written lines, with fuel for each of their tokens.
  lines_from-print :
      {C : Type 0} (go : List (InfluxLine Float) × List Token → Option C)
      → ((lines : List (InfluxLine Float)) (l : WrittenLine) (ts : List Token)
          → go (lines, newline ∷ print_line l ts) ≡ none)
      → (ls : List WrittenLine) (nl : Bool) (n : ℕ) → length (print_more ls nl) ≤ n
      → go (lines_from to_uint to_float n (print_more ls nl))
        ≡ with_read (written_lines to_uint to_float ls) (λ lines. go (lines, print_more [] nl))
  unfolding lines_from
  lines_from-print go stops [] true zero h = refl
  lines_from-print go stops [] true (suc n) h = rw (lines_from, influx_line-nil) refl
  lines_from-print go stops [] false zero h = refl
  lines_from-print go stops [] false (suc n) h = refl
  lines_from-print go stops (l ∷ rest) nl zero h = ground arith
  lines_from-print go stops (l ∷ rest) nl (suc n) h =
      elim (Option-cases (written_line to_uint to_float l)) [
        | inl e ↦
            rw (lines_from, influx_line-print l (print_more rest nl), e)
              (stops [] l (print_more rest nl))
        | inr (line, e) ↦
            rw (lines_from, influx_line-print l (print_more rest nl), e)
              (lines_from-print (λ r. go (line ∷ r.0, r.1)) (λ lines. stops (line ∷ lines)) rest nl
                  n (omega (arith, h, length-print_line l (print_more rest nl)))
                ∙ sym (
                    with_read-with_read (written_lines to_uint to_float rest)
                      (λ lines. some (line ∷ lines)) (λ lines. go (lines, print_more [] nl))))
      ]

  ended-stops :
      (lines : List (InfluxLine Float)) (l : WrittenLine) (ts : List Token)
      → ended to_uint to_float lines (newline ∷ print_line l ts) ≡ none
  ended-stops lines l ts = elim (Bool-cases l.prefixed) [ inl e ↦ rw e refl | inr e ↦ rw e refl ]

  ended-print :
      (lines : List (InfluxLine Float)) (nl : Bool)
      → ended to_uint to_float lines (print_more [] nl) ≡ some lines
  ended-print lines true = refl
  ended-print lines false = refl

  -- The grammar makes of written lines, with a line end after the last or none, the lines of their
  -- values, and an error exactly if one of the values is none.
  pub influx_lines-print :
      (l : WrittenLine) (rest : List WrittenLine) (nl : Bool)
      → influx_lines to_uint to_float (print_line l (print_more rest nl))
        ≡ written_lines to_uint to_float (l ∷ rest)
  unfolding influx_lines first_line
  influx_lines-print l rest nl = elim (Option-cases (written_line to_uint to_float l)) [
    | inl e ↦ rw (influx_line-print l (print_more rest nl), e) refl
    | inr (line, e) ↦
        rw (influx_line-print l (print_more rest nl), e)
          (lines_from-print (λ r. ended to_uint to_float (line ∷ r.0) r.1)
              (λ lines. ended-stops (line ∷ lines)) rest nl (length (print_more rest nl))
              (omega arith)
            ∙ with_read-ext (written_lines to_uint to_float rest) _ _
                (λ lines. ended-print (line ∷ lines) nl))
  ]
