-- ===== src/Agents/Process.antt =====
-- agents/command_handler.go: the agent processes of one runner. A running context is a cell of
-- `ctxs`, named by its position, since the watching goroutine and the runner share it.
pub mod Tracked
pub mod Outcomes
use salus_telemetry_envoy.Common.{
  ◌==◌, string_eq, ◌++◌, List, [], ◌∷◌, String, if◌then◌else◌, Bool, true, false, not, ◌&&◌, ℕ, ◌+◌,
  Option, none, some, length, get_elem?, set,
}
use salus_telemetry_envoy.Common.Result.{Result, ok, err, Error, message, wrap, is_ok}
use salus_telemetry_envoy.Protocol.{AgentType}
use salus_telemetry_envoy.Os.{Fs}

-- AgentRunningContext. `has_cmd` says that cmd is not nil; `alive` is the child process itself,
-- which the code cannot read; `watched` says that WaitOnAgentCommand runs for it.
pub record AgentRunningContext : Type 0 where
  pub agent_type : AgentType
  pub has_cmd : Bool
  pub alive : Bool
  pub stopping : Bool
  pub watched : Bool

-- The runner's `running` pointer, its contexts, the restarts that time.AfterFunc has pending and
-- the HUP signals sent.
pub record Processes : Type 0 where
  pub running : Option ℕ
  pub ctxs : List AgentRunningContext
  pub restarts : ℕ
  pub reloads : ℕ

-- What StartAgentCommand's select sees first. The end of one of the two pipes, or an error of its
-- reader, comes from a process that is still alive or from one that has exited.
pub data FirstSignal : Type 0 where
  deadline phrase_seen output_closed exited : FirstSignal

-- What the operating system does with the next command started, or stopped.
pub data Launch : Type 0 where
  pipe_failed exec_failed : Launch
  launched : FirstSignal → Launch

pub data Stopping : Type 0 where
  exits_on_term killed survives : Stopping

pub record Host : Type 0 where
  pub fs : Fs
  pub launches : List Launch
  pub stops : List Stopping
  -- log.Fatal was called
  pub fatal : Bool

abbrev pub next_launch : List Launch → Launch
next_launch [] = launched phrase_seen
next_launch (l ∷ rest) = l

abbrev pub later_launches : List Launch → List Launch
later_launches [] = []
later_launches (l ∷ rest) = rest

abbrev pub next_stop : List Stopping → Stopping
next_stop [] = exits_on_term
next_stop (s ∷ rest) = s

abbrev pub later_stops : List Stopping → List Stopping
later_stops [] = []
later_stops (s ∷ rest) = rest

abbrev pub after_launch : Host → Host
after_launch h = record h { launches = later_launches h.launches }

abbrev pub after_stop : Host → Host
after_stop h = record h { stops = later_stops h.stops }

-- CreateContext
unfoldable pub create_context : AgentType → AgentRunningContext
create_context t = record {
  agent_type = t;
  has_cmd = true;
  alive = false;
  stopping = false;
  watched = false;
}

-- StartAgentCommand: with no phrase to wait for, the channel holds true from the start.
abbrev pub signal_result : String → FirstSignal → Result (Unit {0})
signal_result wait_for deadline = err (message "failed to see expected content")
signal_result wait_for phrase_seen = ok tt
signal_result wait_for output_closed =
    if wait_for == "" then ok tt else err (message "command exited before seeing expected content")
signal_result wait_for exited =
    if wait_for == "" then ok tt else err (message "command exited before seeing expected content")

abbrev pub is_alive_after : FirstSignal → Bool
is_alive_after exited = false
is_alive_after _ = true

-- A start that can fail although the command lives: at the deadline, or when a pipe ends early.
abbrev pub leaves_process : Launch → Bool
leaves_process (launched deadline) = true
leaves_process (launched output_closed) = true
leaves_process _ = false

unfoldable pub start_agent_command :
    String → Launch → AgentRunningContext → Result (Unit {0}) × AgentRunningContext
start_agent_command wait_for pipe_failed c = (err (message "failed to setup command logging"), c)
start_agent_command wait_for exec_failed c =
    (err (message "failed to start command"), record c { stopping = false })
start_agent_command wait_for (launched s) c =
    (signal_result wait_for s, record c { stopping = false; alive = is_alive_after s })

abbrev pub has_cmd_at : Option AgentRunningContext → Bool
has_cmd_at none = false
has_cmd_at (some c) = c.has_cmd

abbrev pub running_ctx : Option ℕ → List AgentRunningContext → Option AgentRunningContext
running_ctx none cs = none
running_ctx (some i) cs = get_elem? cs i

-- IsRunning: cmd.ProcessState is set only inside cmd.Wait, right before cmd becomes nil.
unfoldable pub is_running : Processes → Bool
is_running p = has_cmd_at (running_ctx p.running p.ctxs)

abbrev pub stopped_ctx : Stopping → AgentRunningContext → AgentRunningContext
stopped_ctx exits_on_term c = record c { stopping = true; alive = false; has_cmd = false }
stopped_ctx killed c = record c { stopping = true; alive = false }
stopped_ctx survives c = record c { stopping = true }

-- Stop of the context at i: TERM, then KILL after the termination timeout. On `exits_on_term` the
-- watching goroutine has reaped the process before Stop goes on.
abbrev pub stop_ctx : ℕ → Option AgentRunningContext → Processes → Host → Processes × Host
stop_ctx i none p h = (p, h)
stop_ctx i (some c) p h =
    if not c.stopping && c.has_cmd
    then (record p { ctxs = set p.ctxs i (stopped_ctx (next_stop h.stops) c) }, after_stop h)
    else (p, h)

abbrev pub stop_running : Option ℕ → Processes → Host → Processes × Host
stop_running none p h = (p, h)
stop_running (some i) p h = stop_ctx i (get_elem? p.ctxs i) p h

-- commandHandler.Stop(runner.running)
unfoldable pub stop : Processes → Host → Processes × Host
stop p h = stop_running p.running p h

-- The runners' Stop, which forgets the context too.
unfoldable pub stop_and_forget : Processes → Host → Processes × Host
unfolding stop
stop_and_forget p h = let r = stop p h in (record r.0 { running = none }, r.1)

abbrev pub reaped : Option AgentRunningContext → ℕ → Processes → Processes
reaped none i p = p
reaped (some c) i p = record p {
  ctxs = set p.ctxs i (record c { has_cmd = false; alive = false });
  restarts = if c.stopping then p.restarts else p.restarts + 1;
}

-- WaitOnAgentCommand for the context at i, when its process ends.
unfoldable pub wait_on_agent_command : ℕ → Processes → Processes
wait_on_agent_command i p = reaped (get_elem? p.ctxs i) i p

-- What the runners do after StartAgentCommand: on success they start the watching goroutine and
-- keep the context; on an error they drop it.
abbrev pub keep_started : Result (Unit {0}) × AgentRunningContext → Processes → Processes
keep_started (ok _, c) p = record p {
  ctxs = p.ctxs ++ record c { watched = true } ∷ [];
  running = some (length p.ctxs);
}
keep_started (err _, c) p = record p { ctxs = p.ctxs ++ c ∷ [] }

-- The result says whether the command was started as wanted.
unfoldable pub start_agent : AgentType → String → Processes → Host → Bool × Processes × Host
unfolding start_agent_command create_context
start_agent t wait_for p h =
    let r = start_agent_command wait_for (next_launch h.launches) (create_context t) in
    (is_ok r.0, keep_started r p, after_launch h)
