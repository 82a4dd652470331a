-- ===== src/Agents/Router/Kept.antt =====
-- What a detach leaves of the runners.
use salus_telemetry_envoy.Common.{
  ◌==◌, nat_eq, string_eq, texts_eq, [], ◌∷◌, arith, ◌≡◌, inl, inr, refl, ◌∙◌, ap, some, Bool-cases,
}
use salus_telemetry_envoy.Common.Assoc.{Assoc, lookup}
use salus_telemetry_envoy.Common.Result.{Result, ok, err}
use salus_telemetry_envoy.Protocol.{AgentType, agent_eq}
use salus_telemetry_envoy.Agents.Process.{Processes, Host, stop, stop_and_forget}
use salus_telemetry_envoy.Agents.Runner.{
  Kind, telegraf_runner, Runner, stop_runner, purge_config, purge_kind,
}
use salus_telemetry_envoy.Agents.Router.{
  Router, Purging, after_purge, stop_runners, purge_runners, on_detach,
}

-- A runner is of the same kind, in the same place, with the same restarts pending.
pub record IsSameRunner (r s : Runner) : Type 0 where
  pub kind : s.kind ≡ r.kind
  pub base_path : s.base_path ≡ r.base_path
  pub restarts : s.procs.restarts ≡ r.procs.restarts

same : (r : Runner) → IsSameRunner r r
same r = record { kind = refl; base_path = refl; restarts = refl }

-- Every runner is found again.
abbrev pub AllKept : Assoc AgentType Runner → Assoc AgentType Runner → Type 0
AllKept m n =
    (t : AgentType) (r : Runner)
    → lookup t m ≡ some r
    → (s : Runner) × (lookup t n ≡ some s) × IsSameRunner r s

cons-AllKept :
    (t : AgentType) (r s : Runner) (m n : Assoc AgentType Runner)
    → IsSameRunner r s
    → AllKept m n
    → AllKept ((t, r) ∷ m) ((t, s) ∷ n)
unfolding lookup
cons-AllKept t r s m n k more u x e = elim (Bool-cases (t == u)) [
  | inl q ↦
      let f : r ≡ x = cc (rw q at e) in
      rw q (
        s,
        refl,
        record {
          kind = k.kind ∙ ap (λ (y : Runner). y.kind) f;
          base_path = k.base_path ∙ ap (λ (y : Runner). y.base_path) f;
          restarts = k.restarts ∙ ap (λ (y : Runner). y.procs.restarts) f;
        },
      )
  | inr q ↦ rw q (more u x (rw q at e))
]

AllKept-refl : (m : Assoc AgentType Runner) → AllKept m m
AllKept-refl m t r e = (r, e, same r)

AllKept-trans : (a b c : Assoc AgentType Runner) → AllKept a b → AllKept b c → AllKept a c
AllKept-trans a b c f g t r e =
    let (s, e1, k1) = f t r e in
    let (x, e2, k2) = g t s e1 in
    (
      x,
      e2,
      record {
        kind = k2.kind ∙ k1.kind;
        base_path = k2.base_path ∙ k1.base_path;
        restarts = k2.restarts ∙ k1.restarts;
      },
    )

restarts-stop : (p : Processes) (h : Host) → (stop_and_forget p h).0.restarts ≡ p.restarts
unfolding stop_and_forget stop
restarts-stop p h = ground arith

stop_runner-IsSameRunner : (r : Runner) (h : Host) → IsSameRunner r (stop_runner r h).0
unfolding stop_runner
stop_runner-IsSameRunner r h = record {
  kind = refl;
  base_path = refl;
  restarts = restarts-stop r.procs h;
}

stop_runners-AllKept : (m : Assoc AgentType Runner) (h : Host) → AllKept m (stop_runners m h).0
unfolding stop_runners
stop_runners-AllKept [] h = AllKept-refl []
stop_runners-AllKept ((t, r) ∷ rest) h =
    cons-AllKept t r _ rest _ (stop_runner-IsSameRunner r h) (stop_runners-AllKept rest _)

purge_kind-IsSameRunner : (k : Kind) (r : Runner) (h : Host) → IsSameRunner r (purge_kind k r h).1
purge_kind-IsSameRunner telegraf_runner r h = record {
  kind = refl;
  base_path = refl;
  restarts = refl;
}
purge_kind-IsSameRunner _ r h = same r

purge_config-IsSameRunner : (r : Runner) (h : Host) → IsSameRunner r (purge_config r h).1
unfolding purge_config
purge_config-IsSameRunner r h = purge_kind-IsSameRunner r.kind r h

after_purge-AllKept :
    (t : AgentType) (r : Runner) (rest : Assoc AgentType Runner) (more : Host → Purging)
    (s : Result (Unit {0}) × Runner × Host)
    → IsSameRunner r s.1
    → ((h : Host) → AllKept rest (more h).1)
    → AllKept ((t, r) ∷ rest) (after_purge t rest more s).1
after_purge-AllKept t r rest more (ok u, x, h) k all = cons-AllKept t r x rest _ k (all h)
after_purge-AllKept t r rest more (err e, x, h) k all =
    cons-AllKept t r x rest rest k (AllKept-refl rest)

purge_runners-AllKept : (m : Assoc AgentType Runner) (h : Host) → AllKept m (purge_runners m h).1
unfolding purge_runners
purge_runners-AllKept [] h = AllKept-refl []
purge_runners-AllKept ((t, r) ∷ rest) h =
    after_purge-AllKept t r rest _ _ (purge_config-IsSameRunner r h)
      (λ g. purge_runners-AllKept rest g)

-- A detach keeps the runners, with the restarts that are pending.
pub on_detach-AllKept : (ar : Router) → AllKept ar.runners (on_detach ar).runners
unfolding on_detach
on_detach-AllKept ar =
    AllKept-trans _ _ _ (stop_runners-AllKept ar.runners ar.host) (purge_runners-AllKept _ _)
