-- ===== src/Agents/Router/Detach.antt =====
-- After a detach nothing runs.
use mathlib.Core.Path.{subst}
use salus_telemetry_envoy.Common.{
  nat_eq, string_eq, texts_eq, [], ◌∷◌, arith, ◌≡◌, ◌⊎◌, inl, inr, refl, sym, none,
}
use salus_telemetry_envoy.Common.Assoc.{Assoc}
use salus_telemetry_envoy.Common.Result.{Result, ok, err}
use salus_telemetry_envoy.Protocol.{AgentType}
use salus_telemetry_envoy.Agents.Process.{Host, stop_and_forget, later_stops}
use salus_telemetry_envoy.Agents.Process.Tracked.{IsTracked, NoLive, stop_and_forget-NoLive}
use salus_telemetry_envoy.Agents.Process.Outcomes.{AllStop, AllStop-next, AllStop-later}
use salus_telemetry_envoy.Agents.Runner.{
  Kind, telegraf_runner, Runner, stop_runner, purge_config, purge_kind,
}
use salus_telemetry_envoy.Agents.Router.{
  Router, Purging, after_purge, stop_runners, purge_runners, on_detach,
}

-- P holds of every runner of the registry.
abbrev pub AllRunners {κ} : (Runner → Type κ) → Assoc AgentType Runner → Type κ
AllRunners P [] = Unit
AllRunners P ((t, r) ∷ rest) = P r × AllRunners P rest

-- No process is alive, and none is held.
pub record IsIdle (r : Runner) : Type 0 where
  pub no_live : NoLive r.procs
  pub not_held : r.procs.running ≡ none

-- A stop uses up one outcome at most.
stops-stop_runner :
    (r : Runner) (h : Host)
    → ((stop_runner r h).1.stops ≡ h.stops) ⊎ ((stop_runner r h).1.stops ≡ later_stops h.stops)
unfolding stop_runner stop_and_forget
stops-stop_runner r h = ground arith

stop_runner-AllStop : (r : Runner) (h : Host) → AllStop h.stops → AllStop (stop_runner r h).1.stops
stop_runner-AllStop r h a = elim (stops-stop_runner r h) [
  | inl e ↦ rw e a
  | inr e ↦ rw e (AllStop-later h.stops a)
]

stop_runner-IsIdle :
    (r : Runner) (h : Host) → IsTracked r.procs → AllStop h.stops → IsIdle (stop_runner r h).0
unfolding stop_runner stop_and_forget
stop_runner-IsIdle r h t a = record {
  no_live = stop_and_forget-NoLive r.procs h t (AllStop-next h.stops a);
  not_held = refl;
}

stop_runners-IsIdle :
    (m : Assoc AgentType Runner) (h : Host)
    → AllRunners (λ r. IsTracked r.procs) m
    → AllStop h.stops
    → AllRunners IsIdle (stop_runners m h).0
unfolding stop_runners
stop_runners-IsIdle [] h t a = tt
stop_runners-IsIdle ((k, r) ∷ rest) h t a =
    (stop_runner-IsIdle r h t.0 a, stop_runners-IsIdle rest _ t.1 (stop_runner-AllStop r h a))

-- IsIdle goes over to the runners as the purge leaves them.
purge_kind-procs : (k : Kind) (r : Runner) (h : Host) → (purge_kind k r h).1.procs ≡ r.procs
purge_kind-procs telegraf_runner r h = refl
purge_kind-procs _ r h = refl

purge_config-IsIdle : (r : Runner) (h : Host) → IsIdle r → IsIdle (purge_config r h).1
unfolding purge_config
purge_config-IsIdle r h d =
    let e = purge_kind-procs r.kind r h in
    record {
      no_live = subst NoLive (sym e) d.no_live;
      not_held = subst (λ p. p.running ≡ none) (sym e) d.not_held;
    }

after_purge-AllIdle :
    (t : AgentType) (rest : Assoc AgentType Runner) (more : Host → Purging)
    (s : Result (Unit {0}) × Runner × Host)
    → AllRunners IsIdle rest
    → ((h : Host) → AllRunners IsIdle (more h).1)
    → IsIdle s.1
    → AllRunners IsIdle (after_purge t rest more s).1
after_purge-AllIdle t rest more (ok u, r, h) d all one = (one, all h)
after_purge-AllIdle t rest more (err x, r, h) d all one = (one, d)

purge_runners-AllIdle :
    (m : Assoc AgentType Runner) (h : Host)
    → AllRunners IsIdle m
    → AllRunners IsIdle (purge_runners m h).1
unfolding purge_runners
purge_runners-AllIdle [] h d = tt
purge_runners-AllIdle ((t, r) ∷ rest) h d =
    after_purge-AllIdle t rest _ _ d.1 (λ g. purge_runners-AllIdle rest g d.1)
      (purge_config-IsIdle r h d.0)

-- After the router handles a detach, no runner holds a process and no process is alive, whether or
-- not the purge of the configurations fails; the runners' processes were tracked before, and every
-- KILL needed works.
pub on_detach-IsIdle :
    (ar : Router)
    → AllRunners (λ r. IsTracked r.procs) ar.runners
    → AllStop ar.host.stops
    → AllRunners IsIdle (on_detach ar).runners
unfolding on_detach
on_detach-IsIdle ar t a = purge_runners-AllIdle _ _ (stop_runners-IsIdle ar.runners ar.host t a)
