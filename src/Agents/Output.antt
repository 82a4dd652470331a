-- ===== src/Agents/Output.antt =====
-- agents/command_handler.go: the goroutines that read a command's stdout and stderr, the channel
-- on which they report, and the select of StartAgentCommand that waits for a report. A step is
-- what one of them does between two points where another may run.
pub mod Reports
pub mod Leak
use salus_telemetry_envoy.Common.{
  ◌==◌, string_eq, ◌++◌, List, [], ◌∷◌, String, if◌then◌else◌, Bool, true, false, ◌≡◌, not, ◌&&◌, ℕ,
  ◌<◌, Option, none, some, length,
}
use salus_telemetry_envoy.Common.Texts.{contains}
use salus_telemetry_envoy.Common.Result.{Result, ok, err, message}

-- A goroutine is before its select, in ReadString, at a send of the channel, or has returned: after
-- its last report, or at the end of its context.
pub data Phase : Type 0 where
  selecting reading : Phase
  sending : Bool → Phase
  ended closed : Phase

pub record Reader : Type 0 where
  -- what the command is still to write; ReadString has an error after that, or before it when
  -- cmd.Wait closes the pipe
  pub lines : List String
  pub checking : Bool
  pub phase : Phase

-- StartAgentCommand's select: before it, or what it took.
pub data Starter : Type 0 where
  waiting gave_up : Starter
  got : Bool → Starter

pub data Side : Type 0 where
  stdout stderr : Side

pub record Output : Type 0 where
  pub wait_for : String
  -- the context is done
  pub cancelled : Bool
  -- waitForChan, of capacity 1
  pub wait_for_chan : List Bool
  pub out : Reader
  pub errs : Reader
  pub starter : Starter

abbrev pub wait_for_chan_size : ℕ
wait_for_chan_size = 1

abbrev pub reader : Side → Output → Reader
reader stdout s = s.out
reader stderr s = s.errs

abbrev pub set_reader : Side → Reader → Output → Output
set_reader stdout r s = record s { out = r }
set_reader stderr r s = record s { errs = r }

abbrev pub new_reader : String → List String → Reader
new_reader wait_for lines = record {
  lines = lines;
  checking = not (wait_for == "");
  phase = selecting;
}

-- setupCommandLogging, for a command that will write these lines.
unfoldable pub setup_command_logging : String → List String → List String → Output
setup_command_logging wait_for out_lines err_lines = record {
  wait_for = wait_for;
  cancelled = false;
  wait_for_chan = if wait_for == "" then true ∷ [] else [];
  out = new_reader wait_for out_lines;
  errs = new_reader wait_for err_lines;
  starter = waiting;
}

-- A line was read: it is logged, and the first with the phrase is reported.
unfoldable pub read_line : String → String → List String → Reader → Reader
read_line wait_for line rest r =
    if r.checking && contains line wait_for
    then record { lines = rest; checking = r.checking; phase = sending true }
    else record r { lines = rest; phase = selecting }

-- After a send.
unfoldable pub reported : Bool → Reader → Reader
reported true r = record r { checking = false; phase = selecting }
reported false r = record r { phase = ended }

pub data Step (s : Output) : Output → Type 0 where
  selects :
      (k : Side)
      → (reader k s).phase ≡ selecting
      → s.cancelled ≡ false
      → Step s (set_reader k (record (reader k s) { phase = reading }) s)
  reads :
      (k : Side) (line : String) (rest : List String)
      → (reader k s).phase ≡ reading
      → (reader k s).lines ≡ line ∷ rest
      → Step s (set_reader k (read_line s.wait_for line rest (reader k s)) s)
  -- the end of the output, or an error
  fails :
      (k : Side)
      → (reader k s).phase ≡ reading
      → Step s (set_reader k (record (reader k s) { phase = sending false }) s)
  sends :
      (k : Side) (b : Bool)
      → (reader k s).phase ≡ sending b
      → length s.wait_for_chan < wait_for_chan_size
      → Step s (record (set_reader k (reported b (reader k s)) s) {
        wait_for_chan = s.wait_for_chan ++ b ∷ [];
      })
  finishes :
      (k : Side)
      → (reader k s).phase ≡ selecting
      → s.cancelled ≡ true
      → Step s (set_reader k (record (reader k s) { phase = closed }) s)
  -- StartAgentCommand
  takes :
      (b : Bool) (rest : List Bool)
      → s.starter ≡ waiting
      → s.wait_for_chan ≡ b ∷ rest
      → Step s (record s { wait_for_chan = rest; starter = got b })
  gives_up : s.starter ≡ waiting → Step s (record s { starter = gave_up })
  -- the process ended and was waited for, or was stopped
  cancels : Step s (record s { cancelled = true })

pub data Reach (s : Output) : Output → Type 0 where
  here : Reach s s
  next : {t u : Output} → Reach s t → Step t u → Reach s u

-- What StartAgentCommand returns; none while it waits.
unfoldable pub start_result : Starter → Option (Result (Unit {0}))
start_result waiting = none
start_result gave_up = some (err (message "failed to see expected content"))
start_result (got true) = some (ok tt)
start_result (got false) = some (err (message "command exited before seeing expected content"))
