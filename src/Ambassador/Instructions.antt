-- ===== src/Ambassador/Instructions.antt =====
-- The instructions that reach the agents router: watchForInstructions of ambassador/connection.go
-- in the attached mode, and ambassador/detached_runner.go in the detached mode.
use salus_telemetry_envoy.Common.{
  nat_eq, string_eq, texts_eq, ◌++◌, List, [], ◌∷◌, String, ◌≡◌, refl, ap, Option, none, some,
}
use salus_telemetry_envoy.Common.Result.{Result, ok, err, message, wrap}
use salus_telemetry_envoy.Protocol.{
  AgentType, telegraf, create, EnvoyInstruction, ready, refresh, nil_details, install, configure,
  test_monitor, TestMonitorResults,
}
use salus_telemetry_envoy.Agents.Convert.{Codec}
use salus_telemetry_envoy.Agents.Files.{Run, returned, panicked, Download}
use salus_telemetry_envoy.Agents.Router.{Router, process_install, process_configure}
use salus_telemetry_envoy.Agents.TestMonitor.{Console, process_test_monitor}

-- The instructions that showExampleDetachedInstructions prints when a file cannot be used.
abbrev pub example_install : EnvoyInstruction
example_install = install (record {
  agent_type = telegraf;
  version = "1.11.0";
  url = "https://homebrew.bintray.com/bottles/telegraf-1.11.0.high_sierra.bottle.tar.gz";
  exe = "telegraf/1.11.0/bin/telegraf";
})

abbrev pub example_configure : EnvoyInstruction
example_configure = configure (record {
  agent_type = telegraf;
  operations =
      record {
        id = "monitor-1";
        op_type = create;
        content = "{\"type\": \"cpu\", \"percpu\": false, \"totalcpu\": true}";
        extra_labels = ("detached", "true") ∷ [];
        interval = 10;
      }
      ∷ [];
})

module _ (agent_name : AgentType → String) (download : String → Download) (codec : Codec)
    (console : Console codec.Float) (lumberjack_address : String) where
  -- One instruction given to the router: the router after it, and what is posted as results.
  abbrev pub Handled : Type 0
  Handled = Run (Unit {0}) × Router × List (TestMonitorResults codec.Float)

  abbrev pub on_router : Run (Unit {0}) × Router → Handled
  on_router s = (s.0, s.1, [])

  -- processTestMonitor: nil results are only logged
  abbrev pub posted :
      Option (TestMonitorResults codec.Float) → List (TestMonitorResults codec.Float)
  posted none = []
  posted (some r) = r ∷ []

  -- the switch of watchForInstructions
  unfoldable pub watch_instruction : EnvoyInstruction → Router → Handled
  watch_instruction ready ar = (returned tt, ar, [])
  watch_instruction (install i) ar = on_router (process_install agent_name download i ar)
  watch_instruction (configure c) ar = on_router (process_configure codec lumberjack_address c ar)
  watch_instruction (test_monitor t) ar =
      (returned tt, ar, posted (process_test_monitor codec console t ar))
  watch_instruction refresh ar = (returned tt, ar, [])
  watch_instruction nil_details ar = (returned tt, ar, [])

  abbrev pub then_watch : Handled → (Router → Handled) → Handled
  then_watch (returned _, ar, rs) k = let m = k ar in (m.0, m.1, rs ++ m.2)
  then_watch (panicked, ar, rs) k = (panicked, ar, rs)

  unfoldable pub watch_instructions : List EnvoyInstruction → Router → Handled
  unfolding watch_instruction
  watch_instructions [] ar = (returned tt, ar, [])
  watch_instructions (i ∷ rest) ar = then_watch (watch_instruction i ar) (watch_instructions rest)

  -- the chain of tests of DetachedRunner.Load; the results of a test monitor are logged
  unfoldable pub detached_instruction : EnvoyInstruction → Router → Run (Unit {0}) × Router
  detached_instruction (install i) ar = process_install agent_name download i ar
  detached_instruction (configure c) ar = process_configure codec lumberjack_address c ar
  detached_instruction (test_monitor t) ar = (returned tt, ar)
  detached_instruction _ ar = (returned tt, ar)

  abbrev pub then_detached :
      Run (Unit {0}) × Router → (Router → Run (Unit {0}) × Router) → Run (Unit {0}) × Router
  then_detached (returned _, ar) k = k ar
  then_detached (panicked, ar) k = (panicked, ar)

  unfoldable pub detached_instructions : List EnvoyInstruction → Router → Run (Unit {0}) × Router
  unfolding detached_instruction
  detached_instructions [] ar = (returned tt, ar)
  detached_instructions (i ∷ rest) ar =
      then_detached (detached_instruction i ar) (detached_instructions rest)

  abbrev pub load_result : Run (Unit {0}) × Router → Run (Result (Unit {0})) × Router
  load_result (returned _, ar) = (returned (ok tt), ar)
  load_result (panicked, ar) = (panicked, ar)

  abbrev pub load_instructions :
      Result (List EnvoyInstruction) → Router → Run (Result (Unit {0})) × Router
  load_instructions (err e) ar = (returned (err (wrap "Unable to unmarshal instructions" e)), ar)
  load_instructions (ok []) ar = (returned (err (message "Instructions file was empty")), ar)
  load_instructions (ok (i ∷ rest)) ar = load_result (detached_instructions (i ∷ rest) ar)

  -- DetachedRunner.Load, from the opened file's content as the unmarshaler gives it.
  unfoldable pub load :
      Result (Result (List EnvoyInstruction)) → Router → Run (Result (Unit {0})) × Router
  unfolding detached_instructions
  load (err e) ar = (returned (err (wrap "Unable to open instructions file" e)), ar)
  load (ok content) ar = load_instructions content ar

  detached-eq-watch_one :
      (i : EnvoyInstruction) (ar : Router)
      → detached_instruction i ar ≡ ((watch_instruction i ar).0, (watch_instruction i ar).1)
  unfolding detached_instruction watch_instruction
  detached-eq-watch_one (install i) ar = refl
  detached-eq-watch_one ready ar = refl
  detached-eq-watch_one refresh ar = refl
  detached-eq-watch_one nil_details ar = refl
  detached-eq-watch_one (configure c) ar = refl
  detached-eq-watch_one (test_monitor t) ar = refl

  then-eq :
      (s : Handled) (d : Router → Run (Unit {0}) × Router) (k : Router → Handled)
      → ((ar : Router) → d ar ≡ ((k ar).0, (k ar).1))
      → then_detached (s.0, s.1) d ≡ ((then_watch s k).0, (then_watch s k).1)
  then-eq (returned u, ar, rs) d k h = h ar
  then-eq (panicked, ar, rs) d k h = refl

  detached-eq-watch :
      (instructions : List EnvoyInstruction) (ar : Router)
      → detached_instructions instructions ar
        ≡ ((watch_instructions instructions ar).0, (watch_instructions instructions ar).1)
  unfolding detached_instructions watch_instructions
  detached-eq-watch [] ar = refl
  detached-eq-watch (i ∷ rest) ar = rw detached-eq-watch_one (
      then-eq (watch_instruction i ar) (detached_instructions rest) (watch_instructions rest)
        (detached-eq-watch rest))

  -- The detached mode leaves the router, its runners and the files in the state in which the
  -- attached mode leaves them when it receives the same instructions in the same order, and it
  -- panics exactly where that does; the file has at least one instruction.
  pub load-eq-watch :
      (first : EnvoyInstruction) (rest : List EnvoyInstruction) (ar : Router)
      → let w = watch_instructions (first ∷ rest) ar in
        load (ok (ok (first ∷ rest))) ar ≡ load_result (w.0, w.1)
  unfolding load
  load-eq-watch first rest ar = ap load_result (detached-eq-watch (first ∷ rest) ar)
