-- ===== src/Agents/TestServer.antt =====
-- The end of ProcessTestMonitor of agents/telegraf.go with the server that StartTestConfigServer of
-- agents/telegraf_test_config_runner.go starts: the goroutine of Serve, those of the handlers and the
-- one that runs the test share the channel configServerErrors. A step is what one of them does
-- between two points where another may run.
pub mod Bounded
use salus_telemetry_envoy.Common.{
  ◌++◌, List, [], ◌∷◌, Bool, true, false, ◌≡◌, ◌≢◌, ℕ, suc, ◌+◌, ◌<◌, length,
}
use salus_telemetry_envoy.Common.Result.{Error}

-- The goroutine that runs the test: before configServer.Close, between it and close of the channel,
-- in the loop over the channel, and after it.
pub data Test : Type 0 where
  testing server_closed reading done : Test

-- The goroutine of Serve: in Serve, at its send_error, or at its end.
pub data Serving : Type 0 where
  serving over : Serving
  failing : Error → Serving

pub record TestServer : Type 0 where
  pub test : Test
  pub serve : Serving
  -- handlers in Write, and those at their send
  pub writing : ℕ
  pub failed : List Error
  -- configServerErrors
  pub queue : List Error
  pub is_closed : Bool
  -- what the results have of it
  pub results : List Error
  -- a panic outside of the handlers has ended the Envoy
  pub panicked : Bool

abbrev pub config_server_errors_size : ℕ
config_server_errors_size = 2

unfoldable pub start_test_config_server : TestServer
start_test_config_server = record {
  test = testing;
  serve = serving;
  writing = 0;
  failed = [];
  queue = [];
  is_closed = false;
  results = [];
  panicked = false;
}

-- configServerErrors <- err
abbrev pub send_error : Error → TestServer → TestServer
send_error e s = record s { queue = s.queue ++ e ∷ [] }

unfoldable pub close_server : TestServer → TestServer
close_server s = record s { test = server_closed }

unfoldable pub close_errors : TestServer → TestServer
close_errors s = record s { test = reading; is_closed = true }

-- A round of the loop over the channel.
unfoldable pub report : Error → List Error → TestServer → TestServer
report e rest s = record s { queue = rest; results = s.results ++ e ∷ [] }

unfoldable pub end_test : TestServer → TestServer
end_test s = record s { test = done }

-- What the goroutine of the test does.
pub data TestStep (s : TestServer) : TestServer → Type 0 where
  closes_server : s.test ≡ testing → TestStep s (close_server s)
  closes_errors : s.test ≡ server_closed → TestStep s (close_errors s)
  reports :
      (e : Error) (rest : List Error)
      → s.test ≡ reading
      → s.queue ≡ e ∷ rest
      → TestStep s (report e rest s)
  finishes : s.test ≡ reading → s.queue ≡ [] → TestStep s (end_test s)

-- What the server does. Once the server is closed Serve returns ErrServerClosed, which is ignored. A
-- send on the closed channel panics; net/http recovers the panic of a handler.
pub data ServerStep (s : TestServer) : TestServer → Type 0 where
  request :
      s.test ≡ testing → s.serve ≡ serving → ServerStep s (record s { writing = s.writing + 1 })
  written : (n : ℕ) → s.writing ≡ suc n → ServerStep s (record s { writing = n })
  write_fails :
      (n : ℕ) (e : Error)
      → s.writing ≡ suc n
      → ServerStep s (record s { writing = n; failed = s.failed ++ e ∷ [] })
  handler_sends :
      (xs ys : List Error) (e : Error)
      → s.failed ≡ xs ++ e ∷ ys
      → s.is_closed ≡ false
      → length s.queue < config_server_errors_size
      → ServerStep s (send_error e (record s { failed = xs ++ ys }))
  handler_panics :
      (xs ys : List Error) (e : Error)
      → s.failed ≡ xs ++ e ∷ ys
      → s.is_closed ≡ true
      → ServerStep s (record s { failed = xs ++ ys })
  serve_fails :
      (e : Error)
      → s.test ≡ testing
      → s.serve ≡ serving
      → ServerStep s (record s { serve = failing e })
  serve_ends : s.test ≢ testing → s.serve ≡ serving → ServerStep s (record s { serve = over })
  serve_sends :
      (e : Error)
      → s.serve ≡ failing e
      → s.is_closed ≡ false
      → length s.queue < config_server_errors_size
      → ServerStep s (send_error e (record s { serve = over }))
  serve_panics :
      (e : Error)
      → s.serve ≡ failing e
      → s.is_closed ≡ true
      → ServerStep s (record s { panicked = true })

pub data Step (s : TestServer) : TestServer → Type 0 where
  tests : {t : TestServer} → s.panicked ≡ false → TestStep s t → Step s t
  serves : {t : TestServer} → s.panicked ≡ false → ServerStep s t → Step s t

pub data Reach (s : TestServer) : TestServer → Type 0 where
  here : Reach s s
  next : {t u : TestServer} → Reach s t → Step t u → Reach s u
