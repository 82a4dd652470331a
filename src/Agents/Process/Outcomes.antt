-- ===== src/Agents/Process/Outcomes.antt =====
-- What the operating system does with all commands to come.
use salus_telemetry_envoy.Common.{
  nat_eq, string_eq, texts_eq, List, [], ◌∷◌, String, arith, ◌≡◌, ◌≢◌, ◌⊎◌, inl, inr, false, refl,
}
use salus_telemetry_envoy.Protocol.{AgentType}
use salus_telemetry_envoy.Agents.Process.{
  Processes, Host, Launch, leaves_process, Stopping, survives, next_launch, later_launches,
  next_stop, later_stops, stop, stop_and_forget, start_agent,
}

-- Every KILL to come works.
abbrev pub AllStop : List Stopping → Type 0
AllStop [] = Unit
AllStop (s ∷ rest) = (s ≢ survives) × AllStop rest

pub AllStop-next : (s : List Stopping) → AllStop s → next_stop s ≢ survives
AllStop-next [] a = λ e. cc
AllStop-next (s ∷ rest) a = a.0

pub AllStop-later : (s : List Stopping) → AllStop s → AllStop (later_stops s)
AllStop-later [] a = a
AllStop-later (s ∷ rest) a = a.1

-- No start to come can fail with its command alive.
abbrev pub AllLaunch : List Launch → Type 0
AllLaunch [] = Unit
AllLaunch (l ∷ rest) = (leaves_process l ≡ false) × AllLaunch rest

pub AllLaunch-next : (l : List Launch) → AllLaunch l → leaves_process (next_launch l) ≡ false
AllLaunch-next [] a = refl
AllLaunch-next (l ∷ rest) a = a.0

AllLaunch-later : (l : List Launch) → AllLaunch l → AllLaunch (later_launches l)
AllLaunch-later [] a = a
AllLaunch-later (l ∷ rest) a = a.1

pub record AllKind (h : Host) : Type 0 where
  pub launches : AllLaunch h.launches
  pub stops : AllStop h.stops

pub launches-stop : (p : Processes) (h : Host) → (stop p h).1.launches ≡ h.launches
unfolding stop
launches-stop p h = ground arith

stops-stop :
    (p : Processes) (h : Host)
    → ((stop p h).1.stops ≡ h.stops) ⊎ ((stop p h).1.stops ≡ later_stops h.stops)
unfolding stop
stops-stop p h = ground arith

pub stop-AllKind : (p : Processes) (h : Host) → AllKind h → AllKind (stop p h).1
stop-AllKind p h k = record {
  launches = rw launches-stop k.launches;
  stops = elim (stops-stop p h) [
    | inl e ↦ rw e k.stops
    | inr e ↦ rw e (AllStop-later h.stops k.stops)
  ];
}

pub stop_and_forget-AllKind :
    (p : Processes) (h : Host) → AllKind h → AllKind (stop_and_forget p h).1
unfolding stop_and_forget
stop_and_forget-AllKind p h k = stop-AllKind p h k

pub start_agent-AllKind :
    (t : AgentType) (wait_for : String) (p : Processes) (h : Host)
    → AllKind h
    → AllKind (start_agent t wait_for p h).2
unfolding start_agent
start_agent-AllKind t wait_for p h k = record {
  launches = AllLaunch-later h.launches k.launches;
  stops = k.stops;
}
