-- ===== src/Ingest/TelegrafJson/Fields.antt =====
-- Which fields of a JSON metric are posted, and as what.
use salus_telemetry_envoy.Common.{
  ◌==◌, nat_eq, string_eq, texts_eq, [], ◌∷◌, String, if◌then◌else◌, true, arith, ◌≡◌, inl, inr,
  refl, sym, ap, ◌∙◌, Option, none, some, Bool-cases,
}
use salus_telemetry_envoy.Common.Assoc.{Assoc, lookup, lookup-insert}
use salus_telemetry_envoy.Ingest.TelegrafJson.{
  Field, number, text, other, TelegrafJsonMetric, store_field, split_fields, process_metric,
}

module _ {Float : Type 0} where
  -- The names of a map are distinct.
  abbrev pub IsMap : Assoc String (Field Float) → Type 0
  IsMap [] = Unit {0}
  IsMap ((k, v) ∷ rest) = (lookup k rest ≡ none) × IsMap rest

  abbrev pub number_or : Option Float → Option (Field Float) → Option Float
  number_or d (some (number x)) = some x
  number_or d _ = d

  abbrev pub text_or : Option String → Option (Field Float) → Option String
  text_or d (some (text s)) = some s
  text_or d _ = d

  lookup-store_number :
      (j k : String) (v : Field Float) (m : Assoc String Float × Assoc String String)
      → lookup k (store_field j v m).0 ≡ number_or (lookup k m.0) (if j == k then some v else none)
  lookup-store_number j k (number x) (f, t) = lookup-insert j k x f ∙ ground arith
  lookup-store_number j k (text s) (f, t) = ground arith
  lookup-store_number j k other (f, t) = ground arith

  lookup-store_text :
      (j k : String) (v : Field Float) (m : Assoc String Float × Assoc String String)
      → lookup k (store_field j v m).1 ≡ text_or (lookup k m.1) (if j == k then some v else none)
  lookup-store_text j k (text x) (f, t) = lookup-insert j k x t ∙ ground arith
  lookup-store_text j k (number s) (f, t) = ground arith
  lookup-store_text j k other (f, t) = ground arith

  absent :
      (j k : String) (rest : Assoc String (Field Float))
      → (j == k) ≡ true
      → lookup j rest ≡ none
      → lookup k rest ≡ none
  absent j k rest e n =
      let e' : j ≡ k = (string_eq.same_iff j k).0 e in ap (λ x. lookup x rest) (sym e') ∙ n

  lookup-split_fields_number :
      (k : String) (fields : Assoc String (Field Float))
      (m : Assoc String Float × Assoc String String)
      → IsMap fields
      → lookup k (split_fields fields m).0 ≡ number_or (lookup k m.0) (lookup k fields)
  unfolding split_fields lookup
  lookup-split_fields_number k [] m d = refl
  lookup-split_fields_number k ((j, v) ∷ rest) m (n, d) =
      lookup-split_fields_number k rest (store_field j v m) d ∙ elim (Bool-cases (j == k)) [
        | inl e ↦ rw (absent j k rest e n, lookup-store_number j k v m, e) refl
        | inr e ↦ rw (lookup-store_number j k v m, e) refl
      ]

  lookup-split_fields_text :
      (k : String) (fields : Assoc String (Field Float))
      (m : Assoc String Float × Assoc String String)
      → IsMap fields
      → lookup k (split_fields fields m).1 ≡ text_or (lookup k m.1) (lookup k fields)
  unfolding split_fields lookup
  lookup-split_fields_text k [] m d = refl
  lookup-split_fields_text k ((j, v) ∷ rest) m (n, d) =
      lookup-split_fields_text k rest (store_field j v m) d ∙ elim (Bool-cases (j == k)) [
        | inl e ↦ rw (absent j k rest e n, lookup-store_text j k v m, e) refl
        | inr e ↦ rw (lookup-store_text j k v m, e) refl
      ]

  -- Under each name a metric posted has a number exactly if the field of that name is one, a text
  -- exactly if it is one, and nothing for any other field; name, tags and time are those received.
  pub process_metric-fields :
      (m : TelegrafJsonMetric Float) (k : String)
      → IsMap m.fields
      → (lookup k (process_metric m).fvalues ≡ number_or none (lookup k m.fields))
        × (lookup k (process_metric m).svalues ≡ text_or none (lookup k m.fields))
        × ((process_metric m).name ≡ m.name)
        × ((process_metric m).tags ≡ m.tags)
        × ((process_metric m).timestamp ≡ m.timestamp)
  unfolding process_metric lookup
  process_metric-fields m k d = (
    lookup-split_fields_number k m.fields ([], []) d,
    lookup-split_fields_text k m.fields ([], []) d,
    refl,
    refl,
    refl,
  )
