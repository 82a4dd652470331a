-- ===== src/Agents/System/Tracked.antt =====
-- No agent process of the system runs without its runner knowing it.
use salus_telemetry_envoy.Common.{
  ◌==◌, nat_eq, string_eq, texts_eq, List, [], ◌∷◌, String, ◌≡◌, inl, inr, refl, Option, none, some,
  Bool-cases,
}
use mathlib.Core.Path.{subst}
use salus_telemetry_envoy.Common.Assoc.{Assoc, lookup, insert}
use salus_telemetry_envoy.Protocol.{
  AgentType, agent_eq, EnvoyInstructionInstall, EnvoyInstructionConfigure,
}
use salus_telemetry_envoy.Agents.Convert.{Codec}
use salus_telemetry_envoy.Agents.Files.{Run, returned, panicked, Download}
use salus_telemetry_envoy.Agents.Process.{Host}
use salus_telemetry_envoy.Agents.Process.Tracked.{IsTracked, NoLive-IsTracked}
use salus_telemetry_envoy.Agents.Process.Outcomes.{AllKind}
use salus_telemetry_envoy.Agents.Runner.{
  Kind, telegraf_runner, Runner, stop_runner, purge_config, purge_kind,
}
use salus_telemetry_envoy.Agents.Router.{
  Router, keep_runner, install_at, configure_at, process_install, process_configure, stop_runners,
  stop_all, on_detach, Purging, after_purge, purge_runners,
}
use salus_telemetry_envoy.Common.Result.{Result, ok, err}
use salus_telemetry_envoy.Agents.Running.Hosts.{checked-AllKind}
use salus_telemetry_envoy.Agents.Router.Detach.{AllRunners, IsIdle, on_detach-IsIdle}
use salus_telemetry_envoy.Agents.System.{
  Event, installs, configures, detaches, done, exits, restarts, at_runner, step, run, then_run,
}
use salus_telemetry_envoy.Agents.System.Sound.{
  IsSound, install_runner-IsSound, configure_runner-IsSound, exit-IsSound, on_restart-IsSound,
  stop_runner-IsSound,
}

abbrev pub Tracked : Runner → Type 0
Tracked r = IsTracked r.procs

-- Every live process of a runner is the one that it holds; and no KILL will fail, and no start can
-- fail with its command alive.
pub record AllTracked (ar : Router) : Type 0 where
  pub runners : AllRunners Tracked ar.runners
  pub kind : AllKind ar.host

some_inj : {r s : Runner} → some r ≡ some s → r ≡ s
some_inj h = cc h

pub lookup-AllRunners {κ} :
    (P : Runner → Type κ) (t : AgentType) (m : Assoc AgentType Runner) (r : Runner)
    → AllRunners P m
    → lookup t m ≡ some r
    → P r
unfolding lookup
lookup-AllRunners P t [] r a e = absurd (cc e)
lookup-AllRunners P t ((k, s) ∷ rest) r a e = elim (Bool-cases (k == t)) [
  | inl q ↦ subst P (some_inj (rw q at e)) a.0
  | inr q ↦ lookup-AllRunners P t rest r a.1 (rw q at e)
]

insert-AllRunners :
    (t : AgentType) (r : Runner) (m : Assoc AgentType Runner)
    → Tracked r
    → AllRunners Tracked m
    → AllRunners Tracked (insert t r m)
unfolding insert
insert-AllRunners t r [] p a = (p, tt)
insert-AllRunners t r ((k, s) ∷ rest) p a = elim (Bool-cases (k == t)) [
  | inl q ↦ rw q (p, a.1)
  | inr q ↦ rw q (a.0, insert-AllRunners t r rest p a.1)
]

keep_runner-AllTracked :
    (ar : Router) (t : AgentType) (r : Runner) (h : Host)
    → AllRunners Tracked ar.runners
    → IsSound r h
    → AllTracked (keep_runner ar t (r, h))
keep_runner-AllTracked ar t r h a s = record {
  runners = insert-AllRunners t r ar.runners s.tracked a;
  kind = s.kind;
}

-- Stops and purges.
stop_runners-AllTracked :
    (m : Assoc AgentType Runner) (h : Host)
    → AllRunners Tracked m
    → AllKind h
    → AllRunners Tracked (stop_runners m h).0 × AllKind (stop_runners m h).1
unfolding stop_runners
stop_runners-AllTracked [] h a k = (tt, k)
stop_runners-AllTracked ((t, r) ∷ rest) h a k =
    let s = stop_runner-IsSound r h (record { tracked = a.0; kind = k }) in
    let more = stop_runners-AllTracked rest (stop_runner r h).1 a.1 s.kind in
    ((s.tracked, more.0), more.1)

purge_config-AllKind : (r : Runner) (h : Host) → AllKind h → AllKind (purge_config r h).2
unfolding purge_config
purge_config-AllKind r h k = by_kind r.kind
  where
    by_kind : (kind : Kind) → AllKind (purge_kind kind r h).2
    by_kind telegraf_runner = k
    by_kind _ = checked-AllKind _ k

after_purge-AllKind :
    (t : AgentType) (rest : Assoc AgentType Runner) (more : Host → Purging)
    (s : Result (Unit {0}) × Runner × Host)
    → ((h : Host) → AllKind h → AllKind (more h).2)
    → AllKind s.2
    → AllKind (after_purge t rest more s).2
after_purge-AllKind t rest more (ok u, r, h) all k = all h k
after_purge-AllKind t rest more (err e, r, h) all k = k

pub purge_runners-AllKind :
    (m : Assoc AgentType Runner) (h : Host) → AllKind h → AllKind (purge_runners m h).2
unfolding purge_runners
purge_runners-AllKind [] h k = k
purge_runners-AllKind ((t, r) ∷ rest) h k =
    after_purge-AllKind t rest _ (purge_config r h) (purge_runners-AllKind rest)
      (purge_config-AllKind r h k)

AllIdle-AllRunners : (m : Assoc AgentType Runner) → AllRunners IsIdle m → AllRunners Tracked m
AllIdle-AllRunners [] a = tt
AllIdle-AllRunners ((t, r) ∷ rest) a = (NoLive-IsTracked a.0.no_live, AllIdle-AllRunners rest a.1)

stop_all-AllTracked : (ar : Router) → AllTracked ar → AllTracked (stop_all ar)
unfolding stop_all
stop_all-AllTracked ar a =
    let s = stop_runners-AllTracked ar.runners ar.host a.runners a.kind in
    record { runners = s.0; kind = s.1 }

on_detach-AllTracked : (ar : Router) → AllTracked ar → AllTracked (on_detach ar)
unfolding on_detach
on_detach-AllTracked ar a = record {
  runners = AllIdle-AllRunners _ (on_detach-IsIdle ar a.runners a.kind.stops);
  kind = purge_runners-AllKind _ _ (stop_all-AllTracked ar a).kind;
}

at_runner-AllTracked :
    (t : AgentType) (f : Runner → Host → Runner × Host) (ar : Router)
    → ((r : Runner) (h : Host) → IsSound r h → IsSound (f r h).0 (f r h).1)
    → AllTracked ar
    → AllTracked (at_runner t (lookup t ar.runners) f ar)
at_runner-AllTracked t f ar keeps a = found (lookup t ar.runners) refl
  where
    found : (o : Option Runner) → lookup t ar.runners ≡ o → AllTracked (at_runner t o f ar)
    found none e = a
    found (some r) e = keep_runner-AllTracked ar t _ _ a.runners (
        keeps r ar.host (record {
          tracked = lookup-AllRunners Tracked t ar.runners r a.runners e;
          kind = a.kind;
        }))

module _ (agent_name : AgentType → String) (download : String → Download) (codec : Codec)
    (lumberjack_address : String) where
  process_install-AllTracked :
      (i : EnvoyInstructionInstall) (ar : Router)
      → AllTracked ar
      → AllTracked (process_install agent_name download i ar).1
  unfolding process_install
  process_install-AllTracked i ar a = found (lookup i.agent_type ar.runners) refl
    where
      found :
          (o : Option Runner)
          → lookup i.agent_type ar.runners ≡ o
          → AllTracked (install_at agent_name download o i ar).1
      found none e = a
      found (some r) e = keep_runner-AllTracked ar i.agent_type _ _ a.runners (
          install_runner-IsSound agent_name download _ i r ar.host (record {
            tracked = lookup-AllRunners Tracked i.agent_type ar.runners r a.runners e;
            kind = a.kind;
          }))

  process_configure-AllTracked :
      (c : EnvoyInstructionConfigure) (ar : Router)
      → AllTracked ar
      → AllTracked (process_configure codec lumberjack_address c ar).1
  unfolding process_configure
  process_configure-AllTracked c ar a = found (lookup c.agent_type ar.runners) refl
    where
      found :
          (o : Option Runner)
          → lookup c.agent_type ar.runners ≡ o
          → AllTracked (configure_at codec lumberjack_address o c ar).1
      found none e = a
      found (some r) e = keep_runner-AllTracked ar c.agent_type _ _ a.runners (
          configure_runner-IsSound codec lumberjack_address r c.operations ar.host (record {
            tracked = lookup-AllRunners Tracked c.agent_type ar.runners r a.runners e;
            kind = a.kind;
          }))

  step-AllTracked :
      (e : Event) (ar : Router)
      → AllTracked ar
      → AllTracked (step agent_name download codec lumberjack_address e ar).1
  unfolding step
  step-AllTracked (installs i) ar a = process_install-AllTracked i ar a
  step-AllTracked (configures c) ar a = process_configure-AllTracked c ar a
  step-AllTracked detaches ar a = on_detach-AllTracked ar a
  step-AllTracked done ar a = stop_all-AllTracked ar a
  step-AllTracked (exits t i) ar a = at_runner-AllTracked t _ ar (exit-IsSound i) a
  step-AllTracked (restarts t) ar a = at_runner-AllTracked t _ ar on_restart-IsSound a

  then_run-AllTracked :
      (s : Run (Unit {0}) × Router) (k : Router → Router)
      → ((ar : Router) → AllTracked ar → AllTracked (k ar))
      → AllTracked s.1
      → AllTracked (then_run agent_name download codec lumberjack_address s k)
  then_run-AllTracked (returned u, ar) k keeps a = keeps ar a
  then_run-AllTracked (panicked, ar) k keeps a = a

  -- Whatever instructions, detaches, ends of processes and restarts follow one another, every live
  -- process of a runner is the one that it holds, has not been told to stop and is waited for, if
  -- this was so before them, no start can fail with its command alive and every KILL needed works.
  pub run-AllTracked :
      (es : List Event) (ar : Router)
      → AllTracked ar
      → AllTracked (run agent_name download codec lumberjack_address es ar)
  unfolding run
  run-AllTracked [] ar a = a
  run-AllTracked (e ∷ es) ar a =
      then_run-AllTracked (step agent_name download codec lumberjack_address e ar) _
        (run-AllTracked es) (step-AllTracked e ar a)
