-- ===== src/Examples/TestServers.antt =====
-- The theorem on the server for a test at a concrete run.
use salus_telemetry_envoy.Common.{[], arith, true, ◌≡◌, ◌≢◌, ◌⊎◌, refl, ◌≤◌, length}
use salus_telemetry_envoy.Common.Result.{message}
use salus_telemetry_envoy.Agents.TestServer.{
  TestServer, start_test_config_server, close_server, close_errors, report, end_test, send_error,
  done, closes_server, closes_errors, reports, finishes, request, write_fails, handler_sends, tests,
  serves, Reach, here, next, config_server_errors_size,
}
use salus_telemetry_envoy.Agents.TestServer.Bounded.{test_steps, CanGoOn, test_server-terminates}

-- A response that cannot be written is reported.
abbrev sent : TestServer
sent = send_error (message "reset") start_test_config_server

abbrev after_test : TestServer
after_test = end_test (report (message "reset") [] (close_errors (close_server sent)))

write_is_reported : Reach start_test_config_server after_test
unfolding start_test_config_server close_server close_errors report end_test
write_is_reported =
    let failed =
      next (next here (serves refl (request refl refl)))
        (serves refl (write_fails 0 (message "reset") refl)) in
    let queued =
      next failed (serves refl (handler_sends [] [] (message "reset") refl refl (omega arith))) in
    let closed =
      next (next queued (tests refl (closes_server refl))) (tests refl (closes_errors refl)) in
    next (next closed (tests refl (reports (message "reset") [] refl refl)))
      (tests refl (finishes refl refl))

test_server-terminates_example :
    (test_steps write_is_reported ≤ 5)
    × ((after_test.panicked ≡ true) ⊎ (after_test.test ≡ done) ⊎ CanGoOn after_test)
    × (length after_test.results ≤ config_server_errors_size)
    × ((after_test.test ≢ done) ⊎ (after_test.queue ≡ []))
test_server-terminates_example = test_server-terminates write_is_reported
