-- ===== src/Agents/Process/Tracked.antt =====
-- No agent process runs without its runner knowing it.
use salus_telemetry_envoy.Common.{
  ◌==◌, nat_eq, string_eq, texts_eq, String, true, false, arith, ◌≡◌, ◌≢◌, inl, inr, refl, ℕ,
  Option, none, some, get_elem?, get_elem?-set, get_elem?-snoc, Bool-cases,
}
use salus_telemetry_envoy.Common.Result.{Result, ok, err}
use salus_telemetry_envoy.Protocol.{AgentType}
use salus_telemetry_envoy.Agents.Process.{
  AgentRunningContext, Processes, Host, Launch, launched, deadline, exited, leaves_process,
  survives, next_launch, next_stop, is_running, stop, stop_and_forget, wait_on_agent_command,
  start_agent, stopped_ctx, stop_ctx, stop_running, pipe_failed, exec_failed, phrase_seen,
  output_closed, create_context, keep_started, start_agent_command, reaped,
}

-- A live process is the one that the runner holds, has not been told to stop, and is waited on.
pub record IsHeld (p : Processes) (i : ℕ) (c : AgentRunningContext) : Type 0 where
  pub held : p.running ≡ some i
  pub reapable : c.has_cmd ≡ true
  pub unstopped : c.stopping ≡ false
  pub waited : c.watched ≡ true

pub record IsTracked (p : Processes) : Type 0 where
  pub at :
      (i : ℕ) (c : AgentRunningContext)
      → get_elem? p.ctxs i ≡ some c
      → c.alive ≡ true
      → IsHeld p i c

pub record NoLive (p : Processes) : Type 0 where
  pub at : (i : ℕ) (c : AgentRunningContext) → get_elem? p.ctxs i ≡ some c → c.alive ≡ false

pub NoLive-IsTracked : {p : Processes} → NoLive p → IsTracked p
NoLive-IsTracked d = record { at = λ i c h a. absurd (cc (d.at i c h)) }

-- A tracked runner that reports nothing running has no live process.
pub not_running-NoLive : {p : Processes} → IsTracked p → is_running p ≡ false → NoLive p
unfolding is_running
not_running-NoLive {p} t n = record { at = λ i c h. ground (arith, t.at i c h) }

-- What a stop leaves alive was alive before, and was not the context that the runner holds.
stop_ctx-NoLive :
    (p : Processes) (h : Host) (i : ℕ) (o : Option AgentRunningContext)
    → p.running ≡ some i
    → get_elem? p.ctxs i ≡ o
    → IsTracked p
    → next_stop h.stops ≢ survives
    → NoLive (stop_ctx i o p h).0
stop_ctx-NoLive p h i none r g t s = record { at = λ j c q. ground (arith, t.at j c q) }
stop_ctx-NoLive p h i (some d) r g t s = record {
  at = λ j c q.
      ground (
        arith,
        get_elem?-set p.ctxs i j (stopped_ctx (next_stop h.stops) d) c,
        t.at j c,
        t.at i d g,
      );
}

stop_running-NoLive :
    (p : Processes) (h : Host) (o : Option ℕ)
    → p.running ≡ o
    → IsTracked p
    → next_stop h.stops ≢ survives
    → NoLive (stop_running o p h).0
stop_running-NoLive p h none e t s = record { at = λ j c q. ground (arith, t.at j c q) }
stop_running-NoLive p h (some i) e t s = stop_ctx-NoLive p h i (get_elem? p.ctxs i) e refl t s

-- Stopping a tracked runner leaves no live process, unless the KILL signal fails.
pub stop-NoLive :
    (p : Processes) (h : Host) → IsTracked p → next_stop h.stops ≢ survives → NoLive (stop p h).0
unfolding stop
stop-NoLive p h t s = stop_running-NoLive p h p.running refl t s

pub stop_and_forget-NoLive :
    (p : Processes) (h : Host)
    → IsTracked p
    → next_stop h.stops ≢ survives
    → NoLive (stop_and_forget p h).0
unfolding stop_and_forget
stop_and_forget-NoLive p h t s = record { at = (stop-NoLive p h t s).at }

-- A context that may be kept, or that is dropped with no process.
abbrev pub IsSettled : Result (Unit {0}) × AgentRunningContext → Type 0
IsSettled (ok _, c) = (c.has_cmd ≡ true) × (c.stopping ≡ false)
IsSettled (err _, c) = c.alive ≡ false

keep_started-IsTracked :
    (r : Result (Unit {0}) × AgentRunningContext) (p : Processes)
    → NoLive p
    → IsSettled r
    → IsTracked (keep_started r p)
keep_started-IsTracked (ok _, c) p d s = record {
  at = λ i x g a. ground (arith, get_elem?-snoc p.ctxs (record c { watched = true }) i x, d.at i x);
}
keep_started-IsTracked (err e, c) p d s = record {
  at = λ i x g a. ground (arith, get_elem?-snoc p.ctxs c i x, d.at i x);
}

pub start_agent_command-IsSettled :
    (wait_for : String) (l : Launch) (t : AgentType)
    → leaves_process l ≡ false
    → IsSettled (start_agent_command wait_for l (create_context t))
unfolding start_agent_command create_context
start_agent_command-IsSettled w pipe_failed t l = refl
start_agent_command-IsSettled w exec_failed t l = refl
start_agent_command-IsSettled w (launched deadline) t l = absurd (cc l)
start_agent_command-IsSettled w (launched output_closed) t l = absurd (cc l)
start_agent_command-IsSettled w (launched phrase_seen) t l = (refl, refl)
start_agent_command-IsSettled w (launched exited) t l = elim (Bool-cases (w == "")) [
  | inl e ↦ rw e (refl, refl)
  | inr e ↦ rw e refl
]

-- A start with nothing alive leaves at most the process that the runner holds, unless it can
-- fail with its command alive.
pub start_agent-IsTracked :
    (t : AgentType) (wait_for : String) (p : Processes) (h : Host)
    → NoLive p
    → leaves_process (next_launch h.launches) ≡ false
    → IsTracked (start_agent t wait_for p h).1
unfolding start_agent
start_agent-IsTracked t wait_for p h d l =
    keep_started-IsTracked _ p d (start_agent_command-IsSettled wait_for _ t l)

-- The end of a process keeps the others tracked.
pub wait_on_agent_command-IsTracked :
    (i : ℕ) (p : Processes) → IsTracked p → IsTracked (wait_on_agent_command i p)
unfolding wait_on_agent_command
wait_on_agent_command-IsTracked i p t = reaped-IsTracked (get_elem? p.ctxs i) refl
  where
    reaped-IsTracked :
        (o : Option AgentRunningContext) → get_elem? p.ctxs i ≡ o → IsTracked (reaped o i p)
    reaped-IsTracked none e = t
    reaped-IsTracked (some d) e = record {
      at = λ j c g a. ground (
        arith,
        get_elem?-set p.ctxs i j (record d { has_cmd = false; alive = false }) c,
        t.at j c,
      );
    }
