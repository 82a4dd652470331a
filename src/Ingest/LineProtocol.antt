-- ===== src/Ingest/LineProtocol.antt =====
-- ingest/lineproto.go: Influx lines over TCP.
use salus_telemetry_envoy.Common.{
  nat_eq, string_eq, texts_eq, ◌++◌, List, [], ◌∷◌, false, arith, ◌≡◌, ℕ,
}
use salus_telemetry_envoy.Common.Result.{Result, ok, err}
use salus_telemetry_envoy.Protocol.{NameTagValueMetric}
use salus_telemetry_envoy.Scanner.{scan_lines}
use salus_telemetry_envoy.Lineproto.{InfluxLine, parse_influx_line_protocol_metrics}
use salus_telemetry_envoy.Ingest.Pipe.{Pipe, started, Reach}
use salus_telemetry_envoy.Ingest.Pipe.Delivery.{of_connection, IsInOrder, started-IsInOrder}
use salus_telemetry_envoy.Ingest.Pipe.Progress.{can_deliver}

abbrev pub line_proto_metrics_chan_size : ℕ
line_proto_metrics_chan_size = 100

module _ {Float : Type 0} (of_uint : ℕ → Float)
    (parse : List ℕ → Result (List (InfluxLine Float))) where
  -- a line that cannot be parsed is only logged
  abbrev pub parsed_or_skipped :
      Result (List (NameTagValueMetric Float)) → List (NameTagValueMetric Float)
  parsed_or_skipped (ok metrics) = metrics
  parsed_or_skipped (err e) = []

  abbrev pub line_metrics : List (List ℕ) → List (NameTagValueMetric Float)
  line_metrics [] = []
  line_metrics (line ∷ lines) =
      parsed_or_skipped (parse_influx_line_protocol_metrics of_uint parse line)
      ++ line_metrics lines

  -- What handleConnection sends for all that it reads from a connection.
  unfoldable pub connection_metrics : List ℕ → List (NameTagValueMetric Float)
  unfolding scan_lines parse_influx_line_protocol_metrics
  connection_metrics content = line_metrics (scan_lines [] content)

  -- Start, where the i-th connection accepted brings the i-th content.
  abbrev pub start : (ℕ → List ℕ) → Pipe (NameTagValueMetric Float)
  start contents = started (λ i. connection_metrics (contents i))

  -- At any time the metrics of each connection's lines are, in their order, posted, then in the
  -- channel, then still to be sent, and the channel has at most 100: none is lost, doubled or
  -- overtaken by a later one of its connection, whatever the other connections do.
  pub line_protocol-IsInOrder :
      (contents : ℕ → List ℕ) (i : ℕ) (s : Pipe (NameTagValueMetric Float))
      → Reach line_proto_metrics_chan_size (start contents) s
      → IsInOrder line_proto_metrics_chan_size (connection_metrics (contents i)) i s
  line_protocol-IsInOrder contents i s r =
      started-IsInOrder line_proto_metrics_chan_size (λ j. connection_metrics (contents j)) i s r

  -- From every state before Start returned, all metrics of a connection can still come to be
  -- posted: no state of the channel and of the other connections stands in the way.
  pub line_protocol_delivers :
      (contents : ℕ → List ℕ) (i : ℕ) (s : Pipe (NameTagValueMetric Float))
      → Reach line_proto_metrics_chan_size (start contents) s
      → s.stopped ≡ false
      → (t : Pipe (NameTagValueMetric Float)) × Reach line_proto_metrics_chan_size s t
        × (of_connection i t.posted ≡ connection_metrics (contents i))
  line_protocol_delivers contents i s r n =
      can_deliver line_proto_metrics_chan_size (λ j. connection_metrics (contents j)) i s
        (omega arith) r n
