-- ===== src/Commands/Shutdown.antt =====
-- The end of the Envoy in time: handleInterrupts of cmd/common.go exits a second after the context
-- is done, while stopAll of agents/agents_router.go stops the agents one after the other, and Stop
-- of agents/command_handler.go waits for each. Times are milliseconds after the cancellation; what
-- is no wait takes none.
use salus_telemetry_envoy.Common.{
  nat_eq, string_eq, texts_eq, ◌++◌, List, [], ◌∷◌, map, if◌then◌else◌, Bool, true, false, leb,
  arith, ◌≡◌, ◌⊎◌, inl, inr, refl, ap, ◌∙◌, not, ◌&&◌, ℕ, ◌+◌, ◌≤◌, ◌<◌, Option, none, some, length,
  drop, Bool-cases,
}
use native.Mathlib.Decide.{dec_lt}

-- The running agents in the order of stopAll, with the time that each takes to end after TERM, if
-- it ever does.
abbrev pub Child : Type 0
Child = Option ℕ

-- What is known of an agent when the Envoy exits: it has ended, was sent KILL, was sent TERM only,
-- or nothing.
pub data Fate : Type 0 where
  ended killed signalled unnotified : Fate

-- os.Exit comes after time.Sleep(1 * time.Second).
abbrev pub exit_delay : ℕ
exit_delay = 1000

abbrev pub is_before : ℕ → ℕ → Bool
is_before a b = not (leb b a)

module _ (termination_timeout : ℕ) where
  abbrev pub ends_in_time : Child → Bool
  ends_in_time none = false
  ends_in_time (some d) = is_before d termination_timeout

  -- How long Stop waits.
  unfoldable pub stopping_time : Child → ℕ
  stopping_time none = termination_timeout
  stopping_time (some d) = if is_before d termination_timeout then d else termination_timeout

  -- Stop, called at a time.
  unfoldable pub stop_at : ℕ → Child → Fate
  unfolding stopping_time
  stop_at now c =
      if is_before now exit_delay
      then (if is_before (now + stopping_time c) exit_delay
          then (if ends_in_time c then ended else killed)
          else signalled)
      else unnotified

  unfoldable pub stop_all_from : ℕ → List Child → List Fate
  unfolding stop_at
  stop_all_from now [] = []
  stop_all_from now (c ∷ rest) = stop_at now c ∷ stop_all_from (now + stopping_time c) rest

  unfoldable pub shutdown : List Child → List Fate
  unfolding stop_all_from
  shutdown = stop_all_from 0

  -- The time that all stops take.
  abbrev pub total : List Child → ℕ
  total [] = 0
  total (c ∷ rest) = stopping_time c + total rest

  abbrev pub is_over : Fate → Bool
  is_over ended = true
  is_over killed = true
  is_over _ = false

  abbrev pub all_over : List Fate → Bool
  all_over [] = true
  all_over (f ∷ rest) = is_over f && all_over rest

  abbrev pub is_killed : Fate → Bool
  is_killed killed = true
  is_killed _ = false

  abbrev pub no_kill : List Fate → Bool
  no_kill [] = true
  no_kill (f ∷ rest) = not (is_killed f) && no_kill rest

  all_over-from :
      (now : ℕ) (cs : List Child)
      → now < exit_delay
      → all_over (stop_all_from now cs) ≡ is_before (now + total cs) exit_delay
  unfolding stop_all_from stop_at
  all_over-from now [] h = ground arith
  all_over-from now (c ∷ rest) h =
      elim (Bool-cases (is_before (now + stopping_time c) exit_delay)) [
        | inl e ↦ ground (arith, all_over-from (now + stopping_time c) rest)
        | inr e ↦ ground arith
      ]

  unnotified-from :
      (now : ℕ) (cs : List Child)
      → exit_delay ≤ now
      → stop_all_from now cs ≡ map (λ c. unnotified) cs
  unfolding stop_all_from stop_at
  unnotified-from now [] h = refl
  unnotified-from now (c ∷ rest) h = ground (arith, unnotified-from (now + stopping_time c) rest)

  drop-from :
      (now : ℕ) (before after : List Child)
      → exit_delay ≤ now + total before
      → drop (length before) (stop_all_from now (before ++ after)) ≡ map (λ c. unnotified) after
  unfolding stop_all_from
  drop-from now [] after h = unnotified-from now after (omega (arith, h))
  drop-from now (c ∷ rest) after h = drop-from (now + stopping_time c) rest after (omega (arith, h))

  no_kill-from :
      (now : ℕ) (cs : List Child)
      → exit_delay ≤ termination_timeout
      → no_kill (stop_all_from now cs) ≡ true
  unfolding stop_all_from stop_at stopping_time
  no_kill-from now [] h = refl
  no_kill-from now (none ∷ rest) h = ground (arith, no_kill-from (now + stopping_time none) rest h)
  no_kill-from now (some d ∷ rest) h =
      ground (arith, no_kill-from (now + stopping_time (some d)) rest h)

  add_zero_left : (n : ℕ) → 0 + n ≡ n
  add_zero_left n = omega arith

  by_order : {Q : Type 0} (a b : ℕ) → (b ≤ a → Q) → (a < b) ⊎ Q
  by_order a b f = elim (dec_lt a b) [ yes h ↦ inl h | no h ↦ inr (f (omega arith)) ]

  -- All agents have ended or were sent KILL when the Envoy exits exactly if the stops take less
  -- than the second that it waits. Once some of them have taken it, the agents that come later in
  -- the order of the stops are not even notified; and with a termination timeout of a second or
  -- more none is ever sent KILL.
  pub shutdown_lem :
      (before after : List Child)
      → (all_over (shutdown (before ++ after)) ≡ is_before (total (before ++ after)) exit_delay)
        × ((total before < exit_delay)
            ⊎ (drop (length before) (shutdown (before ++ after)) ≡ map (λ c. unnotified) after))
        × ((termination_timeout < exit_delay) ⊎ (no_kill (shutdown (before ++ after)) ≡ true))
  unfolding shutdown
  shutdown_lem before after = (
    all_over-from 0 (before ++ after) (omega arith)
        ∙ ap (λ n. is_before n exit_delay) (add_zero_left (total (before ++ after))),
    by_order (total before) exit_delay (λ h. drop-from 0 before after (omega (arith, h))),
    by_order termination_timeout exit_delay (no_kill-from 0 (before ++ after)),
  )
