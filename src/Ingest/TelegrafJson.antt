-- ===== src/Ingest/TelegrafJson.antt =====
-- ingest/telegraf_json.go: metrics as lines of JSON over TCP.
pub mod Fields
use salus_telemetry_envoy.Common.{string_eq, ◌++◌, List, [], ◌∷◌, String, ℕ}
use salus_telemetry_envoy.Common.Assoc.{Assoc, lookup, insert, lookup-insert}
use salus_telemetry_envoy.Common.Result.{Result, ok, err}
use salus_telemetry_envoy.Protocol.{NameTagValueMetric}
use salus_telemetry_envoy.Scanner.{scan_lines}
use salus_telemetry_envoy.Ingest.Pipe.{Pipe, started, Reach}
use salus_telemetry_envoy.Ingest.Pipe.Delivery.{of_connection}
use salus_telemetry_envoy.Ingest.Pipe.Progress.{can_deliver}

abbrev pub telegraf_json_metric_chan_size : ℕ
telegraf_json_metric_chan_size = 10

-- A value of interface{} as the decoder gives it: a float64, a string, or anything else.
pub data Field (Float : Type 0) : Type 0 where
  number : Float → Field Float
  text : String → Field Float
  other : Field Float

pub record TelegrafJsonMetric (Float : Type 0) : Type 0 where
  -- the 64 bits of an int64
  pub timestamp : ℕ
  pub name : String
  pub tags : Assoc String String
  -- a map: the names are distinct
  pub fields : Assoc String (Field Float)

module _ {Float : Type 0} where
  abbrev pub store_field :
      String
      → Field Float
      → Assoc String Float × Assoc String String
      → Assoc String Float × Assoc String String
  store_field k (number x) (f, t) = (insert k x f, t)
  store_field k (text s) (f, t) = (f, insert k s t)
  store_field k other m = m

  -- The loop over the fields.
  unfoldable pub split_fields :
      Assoc String (Field Float)
      → Assoc String Float × Assoc String String
      → Assoc String Float × Assoc String String
  split_fields [] m = m
  split_fields ((k, v) ∷ rest) m = split_fields rest (store_field k v m)

  -- The metric that processMetric posts.
  unfoldable pub process_metric : TelegrafJsonMetric Float → NameTagValueMetric Float
  unfolding split_fields
  process_metric m =
      let values = split_fields m.fields ([], []) in
      record {
        name = m.name;
        timestamp = m.timestamp;
        tags = m.tags;
        fvalues = values.0;
        svalues = values.1;
      }

  abbrev pub decoded_or_skipped :
      Result (TelegrafJsonMetric Float) → List (TelegrafJsonMetric Float)
  decoded_or_skipped (ok m) = m ∷ []
  decoded_or_skipped (err e) = []

  -- empty lines and those that cannot be decoded are passed over
  abbrev pub json_metrics :
      (List ℕ → Result (TelegrafJsonMetric Float)) → List (List ℕ) → List (TelegrafJsonMetric Float)
  json_metrics decode [] = []
  json_metrics decode ([] ∷ lines) = json_metrics decode lines
  json_metrics decode ((b ∷ line) ∷ lines) =
      decoded_or_skipped (decode (b ∷ line)) ++ json_metrics decode lines

  -- What handleConnection sends for all that it reads from a connection.
  unfoldable pub json_connection_metrics :
      (List ℕ → Result (TelegrafJsonMetric Float)) → List ℕ → List (TelegrafJsonMetric Float)
  unfolding scan_lines
  json_connection_metrics decode content = json_metrics decode (scan_lines [] content)

  abbrev pub json_start :
      (List ℕ → Result (TelegrafJsonMetric Float)) → (ℕ → List ℕ) → Pipe (TelegrafJsonMetric Float)
  json_start decode contents = started (λ i. json_connection_metrics decode (contents i))
