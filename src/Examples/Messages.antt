-- ===== src/Examples/Messages.antt =====
-- The theorems on test monitors, the line protocol and the ambassador at concrete inputs.
use salus_telemetry_envoy.Examples.Data.{toy}
use salus_telemetry_envoy.Common.{
  nat_eq, string_eq, texts_eq, List, [], ◌∷◌, String, true, false, arith, ◌≡◌, refl, ℕ, zero, suc,
  none, some,
}
use salus_telemetry_envoy.Common.Result.{Result, ok, err, message}
use salus_telemetry_envoy.Common.Assoc.{lookup}
use salus_telemetry_envoy.Protocol.{
  telegraf, EnvoyInstruction, refresh, test_monitor, TestMonitorResults,
  EnvoyInstructionTestMonitor,
}
use salus_telemetry_envoy.Agents.Convert.{convert_json_to_telegraf_toml}
use salus_telemetry_envoy.Agents.Files.{Download, unreachable}
use salus_telemetry_envoy.Agents.Process.{Host}
use salus_telemetry_envoy.Agents.Runner.{Runner, telegraf_runner}
use salus_telemetry_envoy.Agents.Router.{Router}
use salus_telemetry_envoy.Agents.TestMonitor.{
  Console, retry, telegraf_max_test_monitor_retries, telegraf_test_monitor,
}
use salus_telemetry_envoy.Agents.TestMonitor.Outcome.{IsClean, telegraf_test_monitor-IsClean}
use salus_telemetry_envoy.Lineproto.{InfluxLine, to_metric, parse_influx_line_protocol_metrics}
use salus_telemetry_envoy.Lineproto.Fields.{Holds, to_metric-Holds}
use salus_telemetry_envoy.Ambassador.Session.{
  watches, Session, receiving, attach_session, Reach, here, next, watch_receive, returned,
}
use salus_telemetry_envoy.Ambassador.Session.{ended, receive_error}
use salus_telemetry_envoy.Ambassador.Session.Ending.{HasEnded, attach_can_return}
use salus_telemetry_envoy.Ambassador.Session.Notified.{
  IsNotified, session-IsNotified, attached_after_return,
}
use salus_telemetry_envoy.Ambassador.Instructions.{
  example_install, example_configure, load, load_result, watch_instructions, load-eq-watch,
}

-- cpu,host=h1 usage=2.0,n=5i,state="up" 3000000
abbrev cpu_line : InfluxLine ℕ
cpu_line = record {
  metric_name = "cpu";
  tag_set = ("host", "h1") ∷ [];
  field_set =
      ("usage", record { int = none; float = some 2; boolean = none; string = none })
      ∷ ("n", record { int = some 5; float = none; boolean = none; string = none })
      ∷ ("state", record { int = none; float = none; boolean = none; string = some "up" })
      ∷ [];
  timestamp = 3_000_000;
}

to_metric-Holds_example : Holds (λ n. n) cpu_line "n" (to_metric (λ n. n) cpu_line)
to_metric-Holds_example = to_metric-Holds (λ n. n) cpu_line "n" (omega arith)

-- Recv failed, and attach told the router.
abbrev failed : Session
failed = record (attach_session false true) { watcher = receiving }

session-IsNotified_example : IsNotified failed
session-IsNotified_example =
    session-IsNotified false true failed (next here (watches (watch_receive refl refl)))

abbrev error_queued : Session
error_queued = record (attach_session false true) { errors = 1; watcher = ended }

error_comes : Reach (attach_session false true) error_queued
error_comes =
    next (next here (watches (watch_receive refl refl)))
      (watches (receive_error refl (omega arith)))

attach_can_return_example : (t : Session) × Reach error_queued t × HasEnded error_queued t
attach_can_return_example = attach_can_return false true error_queued error_comes refl (omega arith)

abbrev cancelled_in_recv : Session
cancelled_in_recv = record failed { app_done = true; cancelled = true }

attached_after_return_example :
    (t : Session) × Reach cancelled_in_recv t × (t.loop ≡ returned) × (t.attached ≡ true)
attached_after_return_example = attached_after_return cancelled_in_recv refl refl refl

-- A console on which telegraf is silent once, and then prints a line.
abbrev run_once_late : ℕ → Result (List ℕ)
run_once_late zero = ok []
run_once_late (suc n) = ok (1 ∷ [])

abbrev pub console : Console ℕ
console = record {
  listen = ok tt;
  run_telegraf = λ n toml. run_once_late n;
  run_packages = λ arguments. err (message "not installed");
  server_errors = [];
  parse = λ content. ok (cpu_line ∷ []);
  of_uint = λ n. n;
  error_text = λ e. "failed";
}

abbrev telegraf_test : EnvoyInstructionTestMonitor
telegraf_test = record { correlation_id = "c1"; agent_type = telegraf; content = "{}"; timeout = 5 }

abbrev no_host : Host
no_host = record {
  fs = record { nodes = []; faults = [] };
  launches = [];
  stops = [];
  fatal = false;
}

abbrev runner : Runner
runner = record {
  kind = telegraf_runner;
  base_path = "data" ∷ [];
  procs = record { running = none; ctxs = []; restarts = 0; reloads = 0 };
  configs = [];
}

abbrev router : Router
router = record { data_path = "data" ∷ []; runners = (telegraf, runner) ∷ []; host = no_host }

abbrev clean : TestMonitorResults ℕ
clean = record { correlation_id = "c1"; errors = []; metrics = to_metric (λ n. n) cpu_line ∷ [] }

telegraf_runs_clean : telegraf_test_monitor toy console "c1" "{}" ≡ ok clean
unfolding telegraf_test_monitor retry convert_json_to_telegraf_toml
    parse_influx_line_protocol_metrics lookup
telegraf_runs_clean = refl

telegraf_test_monitor-IsClean_example :
    (toml : List ℕ) × (convert_json_to_telegraf_toml toy "{}" [] 0 ≡ ok toml)
    × IsClean toy console
        (retry telegraf_max_test_monitor_retries 0 (λ n. run_once_late n) (ok []))
        clean
telegraf_test_monitor-IsClean_example =
    telegraf_test_monitor-IsClean toy console "c1" "{}" clean telegraf_runs_clean refl

abbrev no_download : String → Download
no_download url = unreachable

-- The example of the detached mode, with a test.
abbrev then_configure : List EnvoyInstruction
then_configure = example_configure ∷ test_monitor telegraf_test ∷ refresh ∷ []

load-eq-watch_example :
    let w =
      watch_instructions
        (λ t. "TELEGRAF")
        no_download
        toy
        console
        ""
        (example_install ∷ then_configure)
        router in
    load
      (λ t. "TELEGRAF")
      no_download
      toy
      console
      ""
      (ok (ok (example_install ∷ then_configure)))
      router
    ≡ load_result (λ t. "TELEGRAF") no_download toy console "" (w.0, w.1)
load-eq-watch_example =
    load-eq-watch (λ t. "TELEGRAF") no_download toy console "" example_install then_configure router
