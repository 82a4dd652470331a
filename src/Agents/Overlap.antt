-- ===== src/Agents/Overlap.antt =====
-- EnsureRunningState of agents/telegraf.go in two parts: up to the select of StartAgentCommand, and
-- from what it takes on. The router calls it under its mutex, and the timer of a restart without
-- it, so the parts of two calls can interleave.
pub mod Detached
pub mod Doubled
use salus_telemetry_envoy.Common.{
  ◌++◌, List, [], ◌∷◌, if◌then◌else◌, Bool, true, false, ◌≡◌, inl, inr, refl, ap, not, ◌&&◌, ℕ,
  Option, none, some, length, get_elem?, set, get_elem?-length, Bool-cases,
}
use salus_telemetry_envoy.Common.Result.{Result, ok, err, is_ok}
use salus_telemetry_envoy.Protocol.{AgentType, telegraf}
use salus_telemetry_envoy.Paths.{FilePath}
use salus_telemetry_envoy.Agents.Process.{
  AgentRunningContext, Processes, Host, FirstSignal, deadline, phrase_seen, output_closed, exited,
  Launch, pipe_failed, exec_failed, launched, next_launch, later_launches, after_launch,
  create_context, signal_result, is_alive_after, start_agent_command, start_agent, is_running, stop,
  stop_and_forget,
}
use salus_telemetry_envoy.Agents.Telegraf
use salus_telemetry_envoy.Agents.Telegraf.{host_check, has_required_paths, handle_config_reload}

-- A call that has returned, or waits for the first signal of the context at an index.
pub data Call : Type 0 where
  finished : Call
  starting : ℕ → FirstSignal → Call

abbrev pub new_context : AgentRunningContext
new_context = record {
  agent_type = telegraf;
  has_cmd = true;
  alive = true;
  stopping = false;
  watched = false;
}

abbrev pub add_context : AgentRunningContext → Processes → Processes
add_context c p = record p { ctxs = p.ctxs ++ c ∷ [] }

-- The start of the command, with what the operating system does.
abbrev pub launch : Launch → Processes → Host → Call × Processes × Host
launch pipe_failed p h =
    (finished, add_context (record new_context { alive = false }) p, after_launch h)
launch exec_failed p h =
    (finished, add_context (record new_context { alive = false }) p, after_launch h)
launch (launched s) p h = (starting (length p.ctxs) s, add_context new_context p, after_launch h)

abbrev pub returns : Processes × Host → Call × Processes × Host
returns r = (finished, r.0, r.1)

unfoldable pub begin : FilePath → Bool → Processes → Host → Call × Processes × Host
begin base apply_configs p h =
    let r = host_check (has_required_paths base) h in
    if not r.0
    then returns (stop p r.1)
    else if is_running p
    then returns (if apply_configs then handle_config_reload p else p, r.1)
    else launch (next_launch r.1.launches) p r.1

-- The context is kept and waited for, or dropped.
abbrev pub keep_at : ℕ → Result (Unit {0}) → AgentRunningContext → Processes → Processes
keep_at i (ok _) c p = record p {
  ctxs = set p.ctxs i (record c { watched = true });
  running = some i;
}
keep_at i (err _) c p = record p { ctxs = set p.ctxs i c }

abbrev pub finish_ctx : ℕ → FirstSignal → Option AgentRunningContext → Processes → Processes
finish_ctx i s none p = p
finish_ctx i s (some c) p =
    keep_at i (signal_result "Loaded inputs:" s) (record c { alive = c.alive && is_alive_after s })
      p

unfoldable pub finish : Call → Processes → Processes
finish finished p = p
finish (starting i s) p = finish_ctx i s (get_elem? p.ctxs i) p

-- Both parts with nothing between them.
abbrev pub completed : Call × Processes × Host → Processes × Host
completed r = (finish r.0 r.1, r.2)

set-snoc :
    (cs : List AgentRunningContext) (c d : AgentRunningContext)
    → set (cs ++ c ∷ []) (length cs) d ≡ cs ++ d ∷ []
set-snoc [] c d = refl
set-snoc (x ∷ cs) c d = ap (λ (r : List AgentRunningContext). x ∷ r) (set-snoc cs c d)

launch-finish :
    (l : Launch) (p : Processes) (h : Host)
    → next_launch h.launches ≡ l
    → completed (launch l p h) ≡ (let s = start_agent telegraf "Loaded inputs:" p h in (s.1, s.2))
unfolding finish start_agent start_agent_command create_context
launch-finish pipe_failed p h e = rw e refl
launch-finish exec_failed p h e = rw e refl
launch-finish (launched deadline) p h e =
    rw (e, get_elem?-length p.ctxs new_context, set-snoc p.ctxs) refl
launch-finish (launched phrase_seen) p h e =
    rw (e, get_elem?-length p.ctxs new_context, set-snoc p.ctxs) refl
launch-finish (launched output_closed) p h e =
    rw (e, get_elem?-length p.ctxs new_context, set-snoc p.ctxs) refl
launch-finish (launched exited) p h e =
    rw (e, get_elem?-length p.ctxs new_context, set-snoc p.ctxs) refl

-- The two parts together are EnsureRunningState.
pub ensure-eq-completed :
    (base : FilePath) (apply_configs : Bool) (p : Processes) (h : Host)
    → completed (begin base apply_configs p h)
      ≡ Telegraf.ensure_running_state base apply_configs p h
unfolding begin Telegraf.ensure_running_state finish
ensure-eq-completed base apply_configs p h = elim (Bool-cases (has_required_paths base h.fs).0) [
  | inl r ↦ elim (Bool-cases (is_running p)) [
    | inl n ↦ rw (r, n) refl
    | inr n ↦ rw (r, n) (launch-finish _ p (host_check (has_required_paths base) h).1 refl)
  ]
  | inr r ↦ rw r refl
]
