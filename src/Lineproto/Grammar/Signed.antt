-- ===== src/Lineproto/Grammar/Signed.antt =====
-- Integers with a sign in the fields of lineproto/influx_line_protocol.go.
use salus_telemetry_envoy.Common.{
  nat_beq, ◌||◌, true, false, nat_eq, string_eq, texts_eq, ◌++◌, List, [], ◌∷◌, String, Bool, ◌≡◌,
  inl, inr, refl, ap, ◌∙◌, ℕ, Option, none, some, Option-cases,
}
use Prim.Native.Char.{code}
use salus_telemetry_envoy.Common.Result.{Result, ok, err, Error}
use salus_telemetry_envoy.Lineproto.{
  InfluxFieldValue, InfluxFieldSet, parse_influx_line_protocol_metrics,
}
use salus_telemetry_envoy.Lineproto.Grammar.{
  Token, int, tag_value, field_value, lexed, influx_line_parser,
}
use salus_telemetry_envoy.Lineproto.Grammar.Written.{
  WrittenLine, print_line, print_more, with_read, read_pairs, written_line, written_lines,
}
use salus_telemetry_envoy.Lineproto.Grammar.Printed.{influx_lines-print}

-- A text with a sign in front.
abbrev pub is_signed : String → Bool
is_signed String.[] = false
is_signed (String.◌∷◌ c s) = nat_beq (code c) b'-' || nat_beq (code c) b'+'

-- The fields of a line.
abbrev pub written_fields : WrittenLine → List (String × Token)
written_fields l = (l.key, l.value) ∷ l.more

read_pairs-none :
    {A : Type 0} (value : Token → Option A) (before : List (String × Token)) (k : String)
    (v : Token) (after : List (String × Token))
    → value v ≡ none
    → read_pairs value (before ++ ((k, v) ∷ after)) ≡ none
read_pairs-none value [] k v after e = rw e refl
read_pairs-none value ((j, w) ∷ before) k v after e = elim (Option-cases (value w)) [
  | inl n ↦ rw n refl
  | inr (a, n) ↦ rw (n, read_pairs-none value before k v after e) refl
]

with_read-none :
    {A B : Type 0} (o : Option A) (f : A → Option B) → ((a : A) → f a ≡ none) → with_read o f ≡ none
with_read-none none f e = refl
with_read-none (some a) f e = e a

module _ {Float : Type 0} (of_uint : ℕ → Float) (to_uint : String → Option ℕ)
    (to_float : String → Option Float) where
  abbrev value_of : Token → Option (InfluxFieldValue Float)
  value_of = field_value to_uint to_float

  int-none : (s : String) → to_uint s ≡ none → value_of (int s) ≡ none
  unfolding field_value
  int-none s e = rw e refl

  fields-none :
      {B : Type 0} (l : WrittenLine)
      (go : InfluxFieldValue Float → List (InfluxFieldSet Float) → Option B)
      → read_pairs value_of (written_fields l) ≡ none
      → with_read (value_of l.value) (λ v. with_read (read_pairs value_of l.more) (go v)) ≡ none
  fields-none l go e = by_value (value_of l.value) (read_pairs value_of l.more) refl refl
    where
      by_value :
          (v : Option (InfluxFieldValue Float)) (more : Option (List (InfluxFieldSet Float)))
          → value_of l.value ≡ v
          → read_pairs value_of l.more ≡ more
          → with_read (value_of l.value) (λ v. with_read (read_pairs value_of l.more) (go v)) ≡ none
      by_value none more f g = rw f refl
      by_value (some v) none f g = rw (f, g) refl
      by_value (some v) (some more) f g = absurd (cc (e, all_read f g))
        where
          all_read :
              {v : InfluxFieldValue Float} {more : List (InfluxFieldSet Float)}
              → value_of l.value ≡ some v
              → read_pairs value_of l.more ≡ some more
              → read_pairs value_of (written_fields l) ≡ some ((l.key, v) ∷ more)
          all_read f g = rw (f, g) refl

  written_line-none :
      (l : WrittenLine)
      → read_pairs value_of (written_fields l) ≡ none
      → written_line to_uint to_float l ≡ none
  written_line-none l e = with_read-none (read_pairs tag_value l.tags) _ (λ tags. fields-none l _ e)

  written_lines-none :
      (before : List WrittenLine) (l : WrittenLine) (after : List WrittenLine)
      → written_line to_uint to_float l ≡ none
      → written_lines to_uint to_float (before ++ (l ∷ after)) ≡ none
  written_lines-none [] l after e = rw e refl
  written_lines-none (w ∷ before) l after e =
      with_read-none (written_line to_uint to_float w) _
        (λ line. rw (written_lines-none before l after e) refl)

  module _ (lex : List ℕ → Result (List Token)) (unexpected : List Token → Error) where
    -- If no text with a sign is an unsigned number, then a content of well-formed lines of which one
    -- has a field with an integer that has a sign is an error as a whole.
    pub signed_int_lem :
        (content : List ℕ) (first l : WrittenLine) (rest before after : List WrittenLine)
        (nl : Bool) (k s : String) (others more : List (String × Token))
        → ((t : String) → is_signed t ≡ true → to_uint t ≡ none)
        → is_signed s ≡ true
        → lexed lex content ≡ ok (print_line first (print_more rest nl))
        → (first ∷ rest) ≡ (before ++ (l ∷ after))
        → written_fields l ≡ (others ++ ((k, int s) ∷ more))
        → parse_influx_line_protocol_metrics of_uint
            (influx_line_parser to_uint to_float lex unexpected)
            content
          ≡ err (unexpected (print_line first (print_more rest nl)))
    unfolding parse_influx_line_protocol_metrics influx_line_parser
    signed_int_lem content first l rest before after nl k s others more u m e p q =
        let unread = read_pairs-none value_of others k _ more (int-none _ (u s m)) in
        let refused =
          influx_lines-print to_uint to_float first rest nl
          ∙ ap (written_lines to_uint to_float) p
          ∙ written_lines-none before l after
              (written_line-none l (ap (read_pairs value_of) q ∙ unread)) in
        rw (e, refused) refl
