-- ===== src/Agents/System/Orphan.antt =====
-- A live process that its runner does not hold stays so, whatever the runner does.
use salus_telemetry_envoy.Common.{
  nat_eq, string_eq, texts_eq, ◌++◌, List, [], ◌∷◌, if◌then◌else◌, Bool, true, false, not, ◌&&◌,
  arith, ◌≡◌, ◌≢◌, inl, inr, refl, ℕ, zero, suc, Option, none, some, length, get_elem?, set,
  Bool-cases, String,
}
use salus_telemetry_envoy.Common.Result.{Result, ok, err}
use salus_telemetry_envoy.Protocol.{AgentType, telegraf, filebeat, packages, oracle}
use salus_telemetry_envoy.Paths.{FilePath}
use salus_telemetry_envoy.Agents.Files.{has_configs_and_exe_ready}
use salus_telemetry_envoy.Agents.Process.{
  AgentRunningContext, Processes, Host, is_running, stop, stop_ctx, stop_running, stop_and_forget,
  stopped_ctx, next_stop, start_agent, keep_started, wait_on_agent_command, reaped,
}
use salus_telemetry_envoy.Agents.Telegraf
use salus_telemetry_envoy.Agents.Telegraf.{has_required_paths, handle_config_reload, host_check}
use salus_telemetry_envoy.Agents.Filebeat
use salus_telemetry_envoy.Agents.Restarting.{ensure_packages_running, ensure_oracle_running}
use salus_telemetry_envoy.Agents.Runner.{
  Kind, telegraf_runner, filebeat_runner, packages_runner, oracle_runner, ensure_kind,
}
use salus_telemetry_envoy.Agents.Running.{if-first}
use salus_telemetry_envoy.Agents.System.{is_waited, on_exit}

-- A live process that its runner does not hold and that no goroutine waits for.
pub record IsOrphan (i : ℕ) (p : Processes) : Type 0 where
  pub context : AgentRunningContext
  pub there : get_elem? p.ctxs i ≡ some context
  pub live : context.alive ≡ true
  pub unwatched : context.watched ≡ false
  pub unheld : p.running ≢ some i

get_elem?-set_other :
    {A : Type 0} (xs : List A) (i j : ℕ) (v : A) → i ≢ j → get_elem? (set xs i v) j ≡ get_elem? xs j
get_elem?-set_other [] i j v n = refl
get_elem?-set_other (x ∷ xs) zero zero v n = absurd (n refl)
get_elem?-set_other (x ∷ xs) zero (suc j) v n = refl
get_elem?-set_other (x ∷ xs) (suc i) zero v n = refl
get_elem?-set_other (x ∷ xs) (suc i) (suc j) v n =
    get_elem?-set_other xs i j v (λ e. n (omega (arith, e)))

get_elem?-append :
    {A : Type 0} (xs ys : List A) (i : ℕ) (c : A)
    → get_elem? xs i ≡ some c
    → get_elem? (xs ++ ys) i ≡ some c
get_elem?-append [] ys i c e = absurd (cc e)
get_elem?-append (x ∷ xs) ys zero c e = e
get_elem?-append (x ∷ xs) ys (suc i) c e = get_elem?-append xs ys i c e

beyond-none : {A : Type 0} (xs : List A) → get_elem? xs (length xs) ≡ none
beyond-none [] = refl
beyond-none (x ∷ xs) = beyond-none xs

stop_ctx-IsOrphan :
    (i j : ℕ) (o : Option AgentRunningContext) (p : Processes) (h : Host)
    → j ≢ i
    → IsOrphan i p
    → IsOrphan i (stop_ctx j o p h).0
stop_ctx-IsOrphan i j none p h n r = r
stop_ctx-IsOrphan i j (some d) p h n r = elim (Bool-cases (not d.stopping && d.has_cmd)) [
  | inl e ↦ rw e (record {
    context = r.context;
    there = rw (get_elem?-set_other p.ctxs j i (stopped_ctx (next_stop h.stops) d) n) r.there;
    live = r.live;
    unwatched = r.unwatched;
    unheld = r.unheld;
  })
  | inr e ↦ rw e r
]

stop_running-IsOrphan :
    (i : ℕ) (o : Option ℕ) (p : Processes) (h : Host)
    → p.running ≡ o
    → IsOrphan i p
    → IsOrphan i (stop_running o p h).0
stop_running-IsOrphan i none p h e r = r
stop_running-IsOrphan i (some j) p h e r =
    stop_ctx-IsOrphan i j (get_elem? p.ctxs j) p h (λ q. r.unheld (cc (e, q))) r

stop-IsOrphan : (i : ℕ) (p : Processes) (h : Host) → IsOrphan i p → IsOrphan i (stop p h).0
unfolding stop
stop-IsOrphan i p h r = stop_running-IsOrphan i p.running p h refl r

pub stop_and_forget-IsOrphan :
    (i : ℕ) (p : Processes) (h : Host) → IsOrphan i p → IsOrphan i (stop_and_forget p h).0
unfolding stop_and_forget
stop_and_forget-IsOrphan i p h r =
    let s = stop-IsOrphan i p h r in
    record {
      context = s.context;
      there = s.there;
      live = s.live;
      unwatched = s.unwatched;
      unheld = λ e. cc e;
    }

keep_started-IsOrphan :
    (i : ℕ) (s : Result (Unit {0}) × AgentRunningContext) (p : Processes)
    → IsOrphan i p
    → IsOrphan i (keep_started s p)
keep_started-IsOrphan i (ok u, c) p r = record {
  context = r.context;
  there = get_elem?-append p.ctxs _ i r.context r.there;
  live = r.live;
  unwatched = r.unwatched;
  unheld = λ e. absurd (cc (beyond-none p.ctxs, r.there, e));
}
keep_started-IsOrphan i (err e, c) p r = record {
  context = r.context;
  there = get_elem?-append p.ctxs _ i r.context r.there;
  live = r.live;
  unwatched = r.unwatched;
  unheld = r.unheld;
}

start_agent-IsOrphan :
    (i : ℕ) (t : AgentType) (w : String) (p : Processes) (h : Host)
    → IsOrphan i p
    → IsOrphan i (start_agent t w p h).1
unfolding start_agent
start_agent-IsOrphan i t w p h r = keep_started-IsOrphan i _ p r

started-IsOrphan :
    (i : ℕ) (t : AgentType) (w : String) (p : Processes) (h k : Host)
    → IsOrphan i p
    → IsOrphan i (start_agent t w (stop_and_forget p h).0 k).1
started-IsOrphan i t w p h k r = start_agent-IsOrphan i t w _ k (stop_and_forget-IsOrphan i p h r)

reload-IsOrphan :
    (i : ℕ) (b : Bool) (p : Processes)
    → IsOrphan i p
    → IsOrphan i (if b then handle_config_reload p else p)
reload-IsOrphan i false p r = r
reload-IsOrphan i true p r = elim (Bool-cases (is_running p)) [
  | inl e ↦ rw e (record {
    context = r.context;
    there = r.there;
    live = r.live;
    unwatched = r.unwatched;
    unheld = r.unheld;
  })
  | inr e ↦ rw e r
]

pub ensure_kind-IsOrphan :
    (i : ℕ) (kind : Kind) (base : FilePath) (a : Bool) (p : Processes) (h : Host)
    → IsOrphan i p
    → IsOrphan i (ensure_kind kind base a p h).0
unfolding Telegraf.ensure_running_state Filebeat.ensure_running_state ensure_packages_running
    ensure_oracle_running
ensure_kind-IsOrphan i telegraf_runner base a p h r =
    if-first (IsOrphan i) (not (has_required_paths base h.fs).0) _ _ (λ _. stop-IsOrphan i p _ r)
      λ _.
        if-first (IsOrphan i) (is_running p) _ _ (λ _. reload-IsOrphan i a p r)
          λ _. start_agent-IsOrphan i telegraf _ p _ r
ensure_kind-IsOrphan i filebeat_runner base a p h r =
    if-first (IsOrphan i) (not (has_configs_and_exe_ready base "filebeat" ".yml" h.fs).0) _ _
      (λ _. stop-IsOrphan i p _ r)
      λ _.
        if-first (IsOrphan i) (is_running p) _ _ (λ _. r)
          λ _. start_agent-IsOrphan i filebeat "" p _ r
ensure_kind-IsOrphan i packages_runner base a p h r =
    if-first (IsOrphan i)
      (not (has_configs_and_exe_ready base "salus-packages-agent" ".json" h.fs).0) _ _
      (λ _. stop_and_forget-IsOrphan i p _ r)
      λ _.
        if-first (IsOrphan i) (is_running p) _ _
          (λ _. if-first (IsOrphan i) a _ _ (λ _. started-IsOrphan i packages "" p _ _ r) λ _. r)
          λ _. start_agent-IsOrphan i packages "" p _ r
ensure_kind-IsOrphan i oracle_runner base a p h r =
    if-first (IsOrphan i) (is_running p) _ _
      (λ _. if-first (IsOrphan i) a _ _ (λ _. started-IsOrphan i oracle _ p _ _ r) λ _. r)
      λ _. start_agent-IsOrphan i oracle _ p _ r

reaped-IsOrphan :
    (i j : ℕ) (o : Option AgentRunningContext) (p : Processes)
    → j ≢ i
    → IsOrphan i p
    → IsOrphan i (reaped o j p)
reaped-IsOrphan i j none p n r = r
reaped-IsOrphan i j (some d) p n r = record {
  context = r.context;
  there =
      rw (get_elem?-set_other p.ctxs j i (record d { has_cmd = false; alive = false }) n) r.there;
  live = r.live;
  unwatched = r.unwatched;
  unheld = r.unheld;
}

pub on_exit-IsOrphan : (i j : ℕ) (p : Processes) → IsOrphan i p → IsOrphan i (on_exit j p)
unfolding on_exit wait_on_agent_command
on_exit-IsOrphan i j p r = elim (Bool-cases (is_waited (get_elem? p.ctxs j))) [
  | inl e ↦ rw e (reaped-IsOrphan i j (get_elem? p.ctxs j) p (λ q. other q e) r)
  | inr e ↦ rw e r
]
  where
    other : j ≡ i → is_waited (get_elem? p.ctxs j) ≡ true → ⊥
    other q e = cc (rw (q, r.there, r.unwatched) at e)
