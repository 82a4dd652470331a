-- ===== src/Agents/Overlap/Detached.antt =====
-- A detach that the router of agents/agents_router.go handles, which takes no mutex for it, while
-- a call of telegraf's EnsureRunningState waits for the output of its command.
use salus_telemetry_envoy.Common.{
  nat_eq, string_eq, texts_eq, ◌++◌, [], ◌∷◌, Bool, true, ◌≡◌, inl, inr, refl, none, some, length,
  Bool-cases,
}
use salus_telemetry_envoy.Agents.Process.{
  Processes, Host, phrase_seen, launched, next_launch, stop, stop_and_forget,
}
use salus_telemetry_envoy.Agents.Telegraf.{has_required_paths}
use salus_telemetry_envoy.Agents.Runner.{Runner, telegraf_runner, stop_runner, purge_config}
use salus_telemetry_envoy.Agents.Overlap.{starting, new_context, add_context, begin, finish}
use salus_telemetry_envoy.Agents.Overlap.Doubled.{
  HoldsEnded, holds_none, holds_ended, live_context, begun, add-HoldsEnded, get_elem?-middle,
  set-middle,
}

-- What a detach does to one runner.
abbrev pub detach_runner : Runner → Host → Runner × Host
detach_runner r h = let s = stop_runner r h in let c = purge_config s.0 s.1 in (c.1, c.2)

-- A call begins, the detach is handled, and the call goes on.
abbrev pub detached_during : Bool → Runner → Host → Runner
detached_during apply_configs r h =
    let b = begin r.base_path apply_configs r.procs h in
    let d = (detach_runner (record r { procs = b.1 }) b.2).0 in
    record d { procs = finish b.0 d.procs }

-- Stop of a runner that holds the context of a process that has ended, or none.
stop-HoldsEnded :
    (p : Processes) (h : Host)
    → HoldsEnded p
    → (stop_and_forget p h).0 ≡ record p { running = none }
unfolding stop_and_forget stop
stop-HoldsEnded p h (holds_none e) = rw e refl
stop-HoldsEnded p h (holds_ended i c e g n) = elim (Bool-cases c.stopping) [
  | inl s ↦ rw (e, g, s) refl
  | inr s ↦ rw (e, g, s, n) refl
]

finish-dropped :
    (p : Processes)
    → finish
        (starting (length p.ctxs) phrase_seen)
        (record p { ctxs = p.ctxs ++ new_context ∷ []; running = none })
      ≡ record p { ctxs = p.ctxs ++ live_context ∷ []; running = some (length p.ctxs) }
unfolding finish
finish-dropped p =
    rw (get_elem?-middle p.ctxs [] new_context, set-middle p.ctxs [] new_context live_context) refl

-- If a call of telegraf's EnsureRunningState waits for the output of its command when the router
-- handles a detach, telegraf is installed, its last process has ended and the start works, then
-- after Stop and PurgeConfig, and with no configuration left, the call comes to its end with the
-- new process alive, waited for and held by the runner.
pub detach_during_start :
    (apply_configs : Bool) (r : Runner) (h : Host)
    → r.kind ≡ telegraf_runner
    → HoldsEnded r.procs
    → (has_required_paths r.base_path h.fs).0 ≡ true
    → next_launch h.launches ≡ launched phrase_seen
    → ((detached_during apply_configs r h).procs ≡ record r.procs {
      ctxs = r.procs.ctxs ++ live_context ∷ [];
      running = some (length r.procs.ctxs);
    })
      × ((detached_during apply_configs r h).configs ≡ [])
unfolding stop_runner purge_config
detach_during_start apply_configs r h k d q l =
    let b = begun r.base_path apply_configs r.procs h q d l in
    let s =
      stop-HoldsEnded (add_context new_context r.procs)
        (begin r.base_path apply_configs r.procs h).2 (add-HoldsEnded new_context d) in
    (rw (k, b.0, b.1, s) (finish-dropped r.procs), rw k refl)
