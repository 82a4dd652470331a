-- ===== src/Agents/Running/Ensured.antt =====
-- What the interface SpecificAgentRunner asks of EnsureRunningState, and what a start gives of it.
use salus_telemetry_envoy.Common.{
  ◌==◌, nat_eq, string_eq, texts_eq, String, if◌then◌else◌, Bool, true, false, arith, ◌≡◌, ◌⊎◌, inl,
  inr, refl, sym, ◌∙◌, ◌||◌, ◌+◌, get_elem?-snoc, get_elem?-length,
}
use salus_telemetry_envoy.Common.Result.{Result, ok, err, Error, is_ok}
use salus_telemetry_envoy.Protocol.{AgentType}
use salus_telemetry_envoy.Paths.{FilePath}
use salus_telemetry_envoy.Os.{Fs}
use salus_telemetry_envoy.Agents.Files.{has_configs_and_exe_ready}
use salus_telemetry_envoy.Agents.Process.{
  AgentRunningContext, Processes, Host, Launch, pipe_failed, exec_failed, phrase_seen,
  output_closed, exited, leaves_process, start_agent_command, launched, deadline, next_launch,
  is_running, keep_started, start_agent, stop_and_forget, stop,
}
use salus_telemetry_envoy.Agents.Process.Tracked.{NoLive, IsSettled, start_agent_command-IsSettled}
use salus_telemetry_envoy.Agents.Telegraf.{has_required_paths}
use salus_telemetry_envoy.Agents.Runner.{
  Kind, telegraf_runner, filebeat_runner, packages_runner, oracle_runner,
}

-- Whether a runner finds that its agent should run: telegraf asks for its executable only, and the
-- oracle agent for nothing.
abbrev pub is_ready : Kind → FilePath → Fs → Bool
is_ready telegraf_runner base fs = (has_required_paths base fs).0
is_ready filebeat_runner base fs = (has_configs_and_exe_ready base "filebeat" ".yml" fs).0
is_ready packages_runner base fs =
    (has_configs_and_exe_ready base "salus-packages-agent" ".json" fs).0
is_ready oracle_runner base fs = true

-- A start that fails ends the Envoy.
abbrev pub is_fatal : Kind → Bool
is_fatal oracle_runner = true
is_fatal _ = false

-- The phrase by which the start of an agent is known to work.
abbrev pub phrase_of : Kind → String
phrase_of telegraf_runner = "Loaded inputs:"
phrase_of filebeat_runner = ""
phrase_of packages_runner = ""
phrase_of oracle_runner = "Succeeded in reconnecting to Envoy"

-- Whether a start works: the phrase is seen first, or none is awaited of a command that starts.
abbrev pub start_works : String → Launch → Bool
start_works w pipe_failed = false
start_works w exec_failed = false
start_works w (launched deadline) = false
start_works w (launched phrase_seen) = true
start_works w (launched output_closed) = w == ""
start_works w (launched exited) = w == ""

abbrev pub can_start : Kind → Host → Bool
can_start kind h = start_works (phrase_of kind) (next_launch h.launches)

pub data IsEnsured (kind : Kind) (ready before works : Bool) (res : Processes × Host) : Type 0 where
  absent :
      ready ≡ false → NoLive res.0 → res.1.fatal ≡ before → IsEnsured kind ready before works res
  present :
      ready ≡ true
      → is_running res.0 ≡ true
      → res.1.fatal ≡ before
      → IsEnsured kind ready before works res
  not_started :
      ready ≡ true
      → works ≡ false
      → NoLive res.0
      → res.1.fatal ≡ (is_fatal kind || before)
      → IsEnsured kind ready before works res

-- What a start comes to.
abbrev pub HasStarted : Bool × Processes × Host → Type 0
HasStarted s = ((s.0 ≡ true) × (is_running s.1 ≡ true)) ⊎ ((s.0 ≡ false) × NoLive s.1)

keep_started-HasStarted :
    (r : Result (Unit {0}) × AgentRunningContext) (p : Processes) (h : Host)
    → NoLive p
    → IsSettled r
    → HasStarted (is_ok r.0, keep_started r p, h)
unfolding is_running
keep_started-HasStarted (ok u, c) p h d s =
    inl (refl, rw (get_elem?-length p.ctxs (record c { watched = true })) s.0)
keep_started-HasStarted (err e, c) p h d s =
    inr (refl, record { at = λ i x g. ground (arith, get_elem?-snoc p.ctxs c i x, d.at i x) })

start_agent-HasStarted :
    (t : AgentType) (wait_for : String) (p : Processes) (h : Host)
    → NoLive p
    → leaves_process (next_launch h.launches) ≡ false
    → HasStarted (start_agent t wait_for p h)
unfolding start_agent
start_agent-HasStarted t wait_for p h d l =
    keep_started-HasStarted _ p (start_agent t wait_for p h).2 d
      (start_agent_command-IsSettled wait_for _ t l)

is_ok-if : (e : Error) (b : Bool) → is_ok (if b then ok (tt {0}) else err e) ≡ b
is_ok-if e true = refl
is_ok-if e false = refl

-- A start works when what the operating system does lets it.
pub start_agent-start_works :
    (t : AgentType) (w : String) (p : Processes) (h : Host) (l : Launch)
    → next_launch h.launches ≡ l
    → (start_agent t w p h).0 ≡ start_works w l
unfolding start_agent start_agent_command
start_agent-start_works t w p h pipe_failed e = rw e refl
start_agent-start_works t w p h exec_failed e = rw e refl
start_agent-start_works t w p h (launched deadline) e = rw e refl
start_agent-start_works t w p h (launched phrase_seen) e = rw e refl
start_agent-start_works t w p h (launched output_closed) e = rw e (is_ok-if _ (w == ""))
start_agent-start_works t w p h (launched exited) e = rw e (is_ok-if _ (w == ""))

HasStarted-IsEnsured :
    (kind : Kind) (ready before works : Bool) (s : Bool × Processes × Host) (g : Host)
    → ready ≡ true
    → s.0 ≡ works
    → HasStarted s
    → g.fatal ≡ (if s.0 then before else is_fatal kind || before)
    → IsEnsured kind ready before works (s.1, g)
HasStarted-IsEnsured kind ready before works s g r w (inl (o, n)) f = present r n (rw o at f)
HasStarted-IsEnsured kind ready before works s g r w (inr (o, n)) f =
    not_started r (sym w ∙ o) n (rw o at f)

pub fatal-stop : (p : Processes) (h : Host) → (stop p h).1.fatal ≡ h.fatal
unfolding stop
fatal-stop p h = ground arith

pub launches-stop : (p : Processes) (h : Host) → (stop_and_forget p h).1.launches ≡ h.launches
unfolding stop_and_forget stop
launches-stop p h = ground arith

pub fatal-stop_and_forget : (p : Processes) (h : Host) → (stop_and_forget p h).1.fatal ≡ h.fatal
unfolding stop_and_forget
fatal-stop_and_forget p h = fatal-stop p h

fatal-start :
    (t : AgentType) (w : String) (p : Processes) (h : Host)
    → (start_agent t w p h).2.fatal ≡ h.fatal
unfolding start_agent
fatal-start t w p h = refl

either : (b : Bool) (x : Bool) → (if b then x else (false || x)) ≡ x
either true x = refl
either false x = refl

pub running-reload :
    (b : Bool) (p : Processes)
    → is_running p ≡ true
    → is_running (if b then record p { reloads = p.reloads + 1 } else p) ≡ true
unfolding is_running
running-reload true p e = ground arith
running-reload false p e = e

-- A start with nothing alive, for a runner that goes on after a failure, and for the oracle agent.
pub start-IsEnsured :
    (kind : Kind) (a : AgentType) (w : String) (p : Processes) (h : Host) (before works : Bool)
    → is_fatal kind ≡ false
    → NoLive p
    → leaves_process (next_launch h.launches) ≡ false
    → h.fatal ≡ before
    → start_works w (next_launch h.launches) ≡ works
    → IsEnsured kind true before works ((start_agent a w p h).1, (start_agent a w p h).2)
start-IsEnsured kind a w p h before works f d l e x =
    HasStarted-IsEnsured kind true before works (start_agent a w p h) (start_agent a w p h).2 refl
      (start_agent-start_works a w p h _ refl ∙ x) (start_agent-HasStarted a w p h d l)
      (fatal-start a w p h ∙ e ∙ rw f (sym (either (start_agent a w p h).0 before)))

-- log.Fatal of the oracle runner.
fatal_unless :
    (b : Bool) (g : Host) (before : Bool)
    → g.fatal ≡ before
    → (if b then g else record g { fatal = true }).fatal ≡ (if b then before else (true || before))
fatal_unless true g before e = e
fatal_unless false g before e = refl

pub start_oracle-IsEnsured :
    (a : AgentType) (w : String) (p : Processes) (h : Host) (before works : Bool)
    → NoLive p
    → leaves_process (next_launch h.launches) ≡ false
    → h.fatal ≡ before
    → start_works w (next_launch h.launches) ≡ works
    → IsEnsured oracle_runner true before works (
      (start_agent a w p h).1,
      if (start_agent a w p h).0
          then (start_agent a w p h).2
          else record ((start_agent a w p h).2) { fatal = true },
    )
start_oracle-IsEnsured a w p h before works d l e x =
    HasStarted-IsEnsured oracle_runner true before works (start_agent a w p h) _ refl
      (start_agent-start_works a w p h _ refl ∙ x) (start_agent-HasStarted a w p h d l)
      (fatal_unless (start_agent a w p h).0 (start_agent a w p h).2 before
        (fatal-start a w p h ∙ e))
