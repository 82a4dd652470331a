-- ===== src/Examples/Telemetry.antt =====
-- The theorems on the ingestors and the certificates at concrete inputs.
use salus_telemetry_envoy.Common.{
  ◌==◌, nat_eq, string_eq, texts_eq, List, [], ◌∷◌, String, if◌then◌else◌, true, false, arith, ◌≡◌,
  refl, ℕ, zero, suc, ◌*◌, none, some, length, ◌⊎◌,
}
use salus_telemetry_envoy.Common.Result.{is_ok, Result, ok, err, message}
use salus_telemetry_envoy.Protocol.{NameTagValueMetric}
use salus_telemetry_envoy.Scanner.{scan_lines}
use salus_telemetry_envoy.Lineproto.{InfluxLine, parse_influx_line_protocol_metrics}
use salus_telemetry_envoy.Ingest.Pipe.{Pipe, send, Reach, here, next, sends}
use salus_telemetry_envoy.Ingest.Pipe.Delivery.{IsInOrder}
use salus_telemetry_envoy.Ingest.LineProtocol
use salus_telemetry_envoy.Ingest.LineProtocol.{
  line_proto_metrics_chan_size, connection_metrics, line_protocol-IsInOrder, line_protocol_delivers,
}
use salus_telemetry_envoy.Ingest.TelegrafJson.{number, text, other, TelegrafJsonMetric}
use salus_telemetry_envoy.Ingest.PerfTest.{ℤ, pos, PerfTestIngestor, Running, Request}
use salus_telemetry_envoy.Auth.{TlsConfig, Platform}
use salus_telemetry_envoy.Protocol.{filebeat}
use salus_telemetry_envoy.Ambassador.Egress.{Connection, log_event}
use salus_telemetry_envoy.Ingest.Lumberjack
use salus_telemetry_envoy.Ingest.Lumberjack.{
  Input, batch, context_done, disabled, failed, closed, nothing, start-calls,
}

abbrev identity : ℕ → ℕ
identity n = n

-- A parser that gives for each line one without tags and fields.
abbrev toy_parse : List ℕ → Result (List (InfluxLine ℕ))
toy_parse line = ok (
    record { metric_name = "m"; tag_set = []; field_set = []; timestamp = length line * 1_000_000 }
    ∷ [])

-- The first connection sends two lines, the others nothing.
abbrev contents : ℕ → List ℕ
contents zero = 97 ∷ 10 ∷ 97 ∷ 98 ∷ 10 ∷ []
contents (suc n) = []

abbrev blank_metric : ℕ → NameTagValueMetric ℕ
blank_metric t = record { name = "m"; timestamp = t; tags = []; fvalues = []; svalues = [] }

two_metrics :
    connection_metrics identity toy_parse (contents 0) ≡ blank_metric 1 ∷ blank_metric 2 ∷ []
unfolding connection_metrics scan_lines parse_influx_line_protocol_metrics
two_metrics = refl

abbrev first_sent : Pipe (NameTagValueMetric ℕ)
first_sent =
    send 0 (blank_metric 1) (blank_metric 2 ∷ []) (LineProtocol.start identity toy_parse contents)

first_is_sent :
    Reach line_proto_metrics_chan_size (LineProtocol.start identity toy_parse contents) first_sent
first_is_sent = next here (sends 0 (blank_metric 1) (blank_metric 2 ∷ []) two_metrics (omega arith))

line_protocol-IsInOrder_example :
    IsInOrder line_proto_metrics_chan_size
      (connection_metrics identity toy_parse (contents 0))
      0
      first_sent
line_protocol-IsInOrder_example =
    line_protocol-IsInOrder identity toy_parse contents 0 first_sent first_is_sent

abbrev cpu_metric : TelegrafJsonMetric ℕ
cpu_metric = record {
  timestamp = 5;
  name = "cpu";
  tags = [];
  fields = ("usage", number 7) ∷ ("state", text "up") ∷ ("on", other) ∷ [];
}

abbrev toy_decode : List ℕ → Result (TelegrafJsonMetric ℕ)
toy_decode line = ok cpu_metric

abbrev ingestor : PerfTestIngestor
ingestor = record { metrics_per_minute = pos 60; floats_per_metric = pos 2 }

abbrev running : Running ℕ
running = record { ingestor = ingestor; period = 1_000_000_000; posted = [] }

abbrev print : ℕ → String
print n = "duration"

abbrev zero_rate : Request
zero_rate = record { is_post = true; metrics_per_minute = "0"; floats_per_metric = "" }

abbrev atoi : String → Result ℤ
atoi s = if s == "0" then ok (pos 0) else err (message "invalid syntax")

-- A platform on which the auth service answers everything.
abbrev platform : Platform
platform = record {
  Certificate = String;
  CertPool = String;
  Url = String;
  load_x509_key_pair = λ c k. err (message "no such file");
  x509_key_pair = λ c k. ok c;
  pool_from_pem = λ s. some s;
  read_file = λ p. err (message "no such file");
  parse_url = λ s. ok s;
  resolve_reference = λ b r. r;
  url_text = λ u. u;
  new_request = λ u. ok tt;
  do_request = λ u token. ok (record { status_code = 200; status = "200 OK"; body = "{}" });
  decode = λ s. ok (record { certificate = "c"; private_key = "k"; issuing_ca_certificate = "ca" });
}

abbrev tls_config : TlsConfig
tls_config = record { disabled = false; provided = none; auth_service = some "http://auth" }

abbrev attached_connection : Connection ℕ
attached_connection = record {
  envoy_id = "e1";
  resource_id = "r1";
  labels = [];
  tls = some 1;
  has_detach_chan = true;
  attached = true;
}

abbrev to_json : String → Result String
to_json e = ok e

abbrev ready_server : Result (Unit {0})
ready_server = ok tt

abbrev one_batch : List (Input String ℕ)
one_batch = batch attached_connection ("a" ∷ "b" ∷ []) ∷ context_done ∷ []

start-calls_example :
    ((true ≡ false)
      × (Lumberjack.start {Float = ℕ} to_json true ready_server one_batch ≡ nothing disabled))
    ⊎ ((true ≡ true)
        × (is_ok ready_server ≡ false)
        × (Lumberjack.start {Float = ℕ} to_json true ready_server one_batch ≡ nothing failed))
    ⊎ ((true ≡ true)
        × (is_ok ready_server ≡ true)
        × (Lumberjack.start {Float = ℕ} to_json true ready_server one_batch ≡ record {
          calls = log_event filebeat "a" ∷ log_event filebeat "b" ∷ [];
          acknowledged = 1;
          stage = closed;
        }))
start-calls_example = start-calls to_json true ready_server one_batch
