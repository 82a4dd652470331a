-- ===== src/Examples/Systems.antt =====
-- The theorems on the agents as a system and on a command's output at concrete inputs.
use salus_telemetry_envoy.Common.{
  get_elem?, ◌==◌, nat_eq, string_eq, texts_eq, List, [], ◌∷◌, String, true, false, ◌≡◌, ◌≢◌, ◌⊎◌,
  refl, none, some, length, ◌||◌, ◌≤◌,
}
use salus_telemetry_envoy.Common.Assoc.{lookup}
use salus_telemetry_envoy.Common.Result.{ok}
use salus_telemetry_envoy.Protocol.{AgentType, agent_eq, telegraf, EnvoyInstructionConfigure}
use salus_telemetry_envoy.Os.{stat, follow}
use salus_telemetry_envoy.Paths.{join}
use salus_telemetry_envoy.Agents.Files.{full_exe_path, file_exists, Download, unreachable}
use salus_telemetry_envoy.Agents.Process.{
  is_running, Processes, launched, phrase_seen, output_closed, next_launch, stop_and_forget,
}
use salus_telemetry_envoy.Agents.Telegraf.{has_required_paths}
use salus_telemetry_envoy.Agents.Runner.{Runner, telegraf_runner}
use salus_telemetry_envoy.Agents.Router.{Router}
use salus_telemetry_envoy.Agents.System.{configures, detaches, exits, restarts, run}
use salus_telemetry_envoy.Agents.System.Tracked.{AllTracked, run-AllTracked}
use salus_telemetry_envoy.Agents.Overlap.{begin}
use salus_telemetry_envoy.Agents.Overlap.Detached.{detached_during, detach_during_start}
use salus_telemetry_envoy.Agents.Overlap.Doubled.{
  holds_none, live_context, overlapped, overlapping_calls,
}
use salus_telemetry_envoy.Agents.Output.{
  Output, got, sending, setup_command_logging, Reach, here, next, takes, selects, fails, stdout,
  stderr, start_result, wait_for_chan_size,
}
use salus_telemetry_envoy.Agents.Output.Reports.{
  mentions, signal_of, map_signal, start_result-IsReported,
}
use salus_telemetry_envoy.Agents.Output.Leak.{reader_is_stuck}
use salus_telemetry_envoy.Examples.Data.{base, toy}
use salus_telemetry_envoy.Examples.Processes.{
  idle, installed_is_ready, host, router, busy-IsTracked, idle-IsTracked,
}

abbrev pub name_of : AgentType → String
name_of t = "agent"

abbrev pub no_download : String → Download
no_download url = unreachable

router-AllTracked : AllTracked router
router-AllTracked = record {
  runners = (busy-IsTracked, (idle-IsTracked, tt));
  kind = record { launches = tt; stops = tt };
}

abbrev change : EnvoyInstructionConfigure
change = record { agent_type = telegraf; operations = [] }

run-AllTracked_example : AllTracked (
    run name_of no_download toy "localhost:5044"
      (configures change ∷ exits telegraf 0 ∷ restarts telegraf ∷ detaches ∷ [])
      router)
run-AllTracked_example =
    run-AllTracked name_of no_download toy "localhost:5044"
      (configures change ∷ exits telegraf 0 ∷ restarts telegraf ∷ detaches ∷ []) router
      router-AllTracked

-- telegraf ended just before the detach.
abbrev due : Processes
due = record { running = none; ctxs = []; restarts = 1; reloads = 0 }

abbrev due_runner : Runner
due_runner = record { kind = telegraf_runner; base_path = base; procs = due; configs = [] }

abbrev due_router : Router
due_router = record { data_path = "data" ∷ []; runners = (telegraf, due_runner) ∷ []; host = host }

-- A command with no phrase that writes nothing and ends.
abbrev no_phrase : String
no_phrase = ""

abbrev lines : List String
lines = []

abbrev silent : Output
silent = setup_command_logging no_phrase lines lines

abbrev silent_over : Output
silent_over = record {
  wait_for = no_phrase;
  cancelled = false;
  wait_for_chan = [];
  out = record { lines = []; checking = false; phase = sending false };
  errs = record { lines = []; checking = false; phase = sending false };
  starter = got true;
}

silent_runs : Reach silent silent_over
unfolding setup_command_logging
silent_runs =
    next
      (next
        (next (next (next here (takes true [] refl refl)) (selects stdout refl refl))
          (fails stdout refl))
        (selects stderr refl refl))
      (fails stderr refl)

start_result-IsReported_example :
    (start_result silent_over.starter ≡ map_signal no_phrase (signal_of silent_over.starter))
    × ((start_result silent_over.starter ≢ some (ok tt))
        ⊎ ((no_phrase == no_phrase) ≡ true)
        ⊎ ((mentions no_phrase lines || mentions no_phrase lines) ≡ true))
    × (((no_phrase == no_phrase) ≡ false) ⊎ (signal_of silent_over.starter ≢ some output_closed))
    × (length silent_over.wait_for_chan ≤ wait_for_chan_size)
start_result-IsReported_example =
    start_result-IsReported no_phrase lines lines silent_over silent_runs

reader_is_stuck_example :
    (silent_over.out.phase ≡ sending false) ⊎ (silent_over.errs.phase ≡ sending false)
reader_is_stuck_example =
    reader_is_stuck no_phrase lines lines silent_over silent_over silent_runs
      (record { satisfied = refl; out = refl; errs = refl }) here

begun_is_ready : (has_required_paths base (begin base true idle host).2.fs).0 ≡ true
unfolding begin is_running has_required_paths file_exists full_exe_path stat follow join lookup
begun_is_ready = refl

begun_starts : next_launch (begin base true idle host).2.launches ≡ launched phrase_seen
unfolding begin is_running has_required_paths file_exists full_exe_path stat follow join lookup
begun_starts = refl

overlapping_calls_example :
    (get_elem? (overlapped base true false idle host).ctxs 0 ≡ some live_context)
    × (get_elem? (overlapped base true false idle host).ctxs 1 ≡ some live_context)
    × ((overlapped base true false idle host).running ≡ some 1)
    × (get_elem? (stop_and_forget (overlapped base true false idle host) host).0.ctxs 0
        ≡ some live_context)
    × ((stop_and_forget (overlapped base true false idle host) host).0.running ≡ none)
overlapping_calls_example =
    overlapping_calls base true false idle host host (holds_none refl) installed_is_ready
      begun_is_ready refl begun_starts

abbrev idle_telegraf : Runner
idle_telegraf = record {
  kind = telegraf_runner;
  base_path = base;
  procs = idle;
  configs = ("m1", 1 ∷ []) ∷ [];
}

detach_during_start_example :
    ((detached_during true idle_telegraf host).procs
      ≡ record idle { ctxs = live_context ∷ []; running = some 0 })
    × ((detached_during true idle_telegraf host).configs ≡ [])
detach_during_start_example =
    detach_during_start true idle_telegraf host refl (holds_none refl) installed_is_ready refl
