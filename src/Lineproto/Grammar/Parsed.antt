-- ===== src/Lineproto/Grammar/Parsed.antt =====
-- The grammar of lineproto/influx_line_protocol.go accepts written lines only.
use salus_telemetry_envoy.Common.{
  nat_eq, string_eq, texts_eq, List, [], ◌∷◌, String, Bool, true, false, arith, ◌≡◌, ◌↔◌, inl, inr,
  refl, sym, ap, ◌∙◌, ℕ, zero, suc, Option, none, some, length, Option-cases,
}
use salus_telemetry_envoy.Lineproto.{InfluxLine}
use salus_telemetry_envoy.Lineproto.Grammar.{
  Token, newline, influx_line, lines_from, ended, first_line, influx_lines,
}
use salus_telemetry_envoy.Lineproto.Grammar.Written.{
  WrittenLine, print_line, print_more, written_lines,
}
use salus_telemetry_envoy.Lineproto.Grammar.Printed.{influx_lines-print}
use salus_telemetry_envoy.Lineproto.Grammar.ParsedLine.{
  some_inj, IsReadLine, influx_line-IsReadLine,
}

module _ {Float : Type 0} (to_uint : String → Option ℕ) (to_float : String → Option Float) where
  -- Lines after a first one, before what is left.
  abbrev print_rest : List WrittenLine → List Token → List Token
  print_rest [] ts = ts
  print_rest (l ∷ rest) ts = newline ∷ print_line l (print_rest rest ts)

  -- What the repetition over lines has read, with what it leaves.
  record IsReadLines (ts : List Token) (r : List (InfluxLine Float) × List Token) : Type 0 where
    pub written : List WrittenLine
    pub printed : print_rest written r.1 ≡ ts
    pub read : written_lines to_uint to_float written ≡ some r.0

  no_lines : (ts : List Token) → IsReadLines ts ([], ts)
  no_lines ts = record { written = []; printed = refl; read = refl }

  next_line-IsReadLines :
      (ts : List Token) (line : InfluxLine Float) (us : List Token)
      (r : List (InfluxLine Float) × List Token)
      → IsReadLine to_uint to_float ts (line, us)
      → IsReadLines us r
      → IsReadLines (newline ∷ ts) (line ∷ r.0, r.1)
  next_line-IsReadLines ts line us r l i = record {
    written = l.written ∷ i.written;
    printed =
        ap (λ vs. newline ∷ print_line l.written vs) i.printed ∙ ap (λ vs. newline ∷ vs) l.printed;
    read = rw (l.read, i.read) refl;
  }

  lines_from-IsReadLines :
      (n : ℕ) (ts : List Token) → IsReadLines ts (lines_from to_uint to_float n ts)
  unfolding lines_from
  lines_from-IsReadLines zero ts = no_lines ts
  lines_from-IsReadLines (suc n) (newline ∷ ts) =
      elim (Option-cases (influx_line to_uint to_float ts)) [
        | inl e ↦ rw (lines_from, e) (no_lines (newline ∷ ts))
        | inr ((line, us), e) ↦
            rw (lines_from, e)
              (next_line-IsReadLines ts line us _
                (influx_line-IsReadLine to_uint to_float ts (line, us) e)
                (lines_from-IsReadLines n us))
      ]
  lines_from-IsReadLines (suc n) ts = no_lines ts

  print_rest-print_more :
      (ls : List WrittenLine) (nl : Bool) → print_rest ls (print_more [] nl) ≡ print_more ls nl
  print_rest-print_more [] nl = refl
  print_rest-print_more (l ∷ rest) nl =
      ap (λ ts. newline ∷ print_line l ts) (print_rest-print_more rest nl)

  -- The tokens are those of a line or more, and a line end or none, and the lines are those of
  -- their values.
  pub record IsGenerated (ts : List Token) (lines : List (InfluxLine Float)) : Type 0 where
    pub first : WrittenLine
    pub rest : List WrittenLine
    pub nl : Bool
    pub printed : print_line first (print_more rest nl) ≡ ts
    pub read : written_lines to_uint to_float (first ∷ rest) ≡ some lines

  ended-at :
      (got : List (InfluxLine Float)) (ts : List Token) (lines : List (InfluxLine Float))
      → ended to_uint to_float got ts ≡ some lines
      → (nl : Bool) × (print_more [] nl ≡ ts) × (got ≡ lines)
  ended-at got [] lines h = (false, refl, some_inj h)
  ended-at got (newline ∷ []) lines h = (true, refl, some_inj h)
  ended-at got ts lines h = ground arith

  first_line-IsGenerated :
      (ts : List Token) (o : Option (InfluxLine Float × List Token))
      (lines : List (InfluxLine Float))
      → influx_line to_uint to_float ts ≡ o
      → first_line to_uint to_float o ≡ some lines
      → IsGenerated ts lines
  unfolding first_line
  first_line-IsGenerated ts none lines e h = ground arith
  first_line-IsGenerated ts (some (line, us)) lines e h =
      let l = influx_line-IsReadLine to_uint to_float ts (line, us) e in
      let more = lines_from-IsReadLines (length us) us in
      let (nl, p, q) = ended-at _ _ lines h in
      record {
        first = l.written;
        rest = more.written;
        nl = nl;
        printed =
            ap (print_line l.written) (
              sym (print_rest-print_more more.written nl)
              ∙ ap (print_rest more.written) p
              ∙ more.printed)
            ∙ l.printed;
        read = rw (l.read, more.read) (ap some q);
      }

  -- The parser accepts exactly the tokens of one line or more, each with its prefix or without,
  -- with at least one field and a time, and a line end after the last or none, if all values are
  -- values of their types; and what it makes of them is the lines of these values.
  pub influx_lines-IsGenerated :
      (ts : List Token) (lines : List (InfluxLine Float))
      → (influx_lines to_uint to_float ts ≡ some lines) ↔ IsGenerated ts lines
  unfolding influx_lines
  influx_lines-IsGenerated ts lines = (
    first_line-IsGenerated ts _ lines refl,
    λ g.
        sym (ap (influx_lines to_uint to_float) g.printed)
        ∙ influx_lines-print to_uint to_float g.first g.rest g.nl
        ∙ g.read,
  )
