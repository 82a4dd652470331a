-- ===== src/Agents/TestServer/Bounded.antt =====
-- The errors of the test's configuration server, and the end of the test.
use salus_telemetry_envoy.Common.{
  nat_eq, string_eq, texts_eq, ◌++◌, List, [], ◌∷◌, Bool, true, false, arith, ◌≡◌, ◌≢◌, ◌⊎◌, inl,
  inr, refl, sym, ap, ◌∙◌, ℕ, suc, Bool-cases, ◌+◌, ◌≤◌, ◌<◌, length, length-append,
}
use salus_telemetry_envoy.Common.Result.{Error}
use salus_telemetry_envoy.Agents.TestServer.{
  Test, testing, server_closed, reading, done, over, TestServer, start_test_config_server,
  config_server_errors_size, send_error, close_server, close_errors, report, end_test, TestStep,
  closes_server, closes_errors, reports, finishes, ServerStep, request, written, write_fails,
  handler_sends, handler_panics, serve_fails, serve_ends, serve_sends, serve_panics, tests, serves,
  Reach, here, next,
}

abbrev pub has_closed : Test → Bool
has_closed testing = false
has_closed server_closed = false
has_closed reading = true
has_closed done = true

-- How many more steps the goroutine of the test makes at most.
abbrev pub left_of : Test → ℕ → ℕ
left_of testing n = 5
left_of server_closed n = 4
left_of reading n = suc n
left_of done n = 0

abbrev pub left : TestServer → ℕ
left s = left_of s.test (length s.queue)

pub record IsBounded (s : TestServer) : Type 0 where
  pub closed : s.is_closed ≡ has_closed s.test
  pub bounded : length s.queue + length s.results ≤ config_server_errors_size
  -- nothing is reported before the channel is closed
  pub unread : (has_closed s.test ≡ true) ⊎ (s.results ≡ [])
  pub emptied : (s.test ≢ done) ⊎ (s.queue ≡ [])

start-IsBounded : IsBounded start_test_config_server
unfolding start_test_config_server
start-IsBounded = record {
  closed = refl;
  bounded = omega arith;
  unread = inr refl;
  emptied = inr refl;
}

none_reported : {s : TestServer} → IsBounded s → has_closed s.test ≡ false → s.results ≡ []
none_reported i c = elim i.unread [ inl r ↦ absurd (cc (r, c)) | inr r ↦ r ]

-- An error moves from the channel to the results.
moved :
    (r : List Error) (x : Error) (rest : List Error)
    → length (x ∷ rest) + length r ≤ config_server_errors_size
    → length rest + length (r ++ x ∷ []) ≤ config_server_errors_size
moved r x rest h = rw (length-append r (x ∷ [])) (omega (arith, h))

TestStep-IsBounded : {s t : TestServer} → TestStep s t → IsBounded s → IsBounded t
unfolding close_server close_errors report end_test
TestStep-IsBounded {s} (closes_server e) i = record {
  closed = i.closed ∙ rw e refl;
  bounded = i.bounded;
  unread = inr (none_reported i (rw e refl));
  emptied = inl (λ h. cc h);
}
TestStep-IsBounded {s} (closes_errors e) i = record {
  closed = refl;
  bounded = i.bounded;
  unread = inl refl;
  emptied = inl (λ h. cc h);
}
TestStep-IsBounded {s} (reports x rest e q) i = record {
  closed = i.closed;
  bounded = moved s.results x rest (rw q at i.bounded);
  unread = inl (rw e refl);
  emptied = inl (λ h. cc (e, h));
}
TestStep-IsBounded {s} (finishes e q) i = record {
  closed = i.closed ∙ rw e refl;
  bounded = i.bounded;
  unread = inl refl;
  emptied = inr q;
}

-- A send adds to a queue that has room, before anything is reported.
send_error-IsBounded :
    (s t : TestServer) (e : Error)
    → IsBounded s
    → s.is_closed ≡ false
    → length s.queue < config_server_errors_size
    → t.test ≡ s.test
    → t.is_closed ≡ s.is_closed
    → t.queue ≡ s.queue
    → t.results ≡ s.results
    → IsBounded (send_error e t)
send_error-IsBounded s t e i c l p q r u =
    let n = none_reported i (sym i.closed ∙ c) in
    record {
      closed = q ∙ i.closed ∙ ap has_closed (sym p);
      bounded = rw (r, u, n, length-append s.queue (e ∷ [])) (omega (arith, l));
      unread = inr (u ∙ n);
      emptied = inl (λ h. cc (c, i.closed, ap has_closed (sym p ∙ h)));
    }

-- A step that leaves the test and the channel as they are.
same-IsBounded :
    (s t : TestServer)
    → IsBounded s
    → t.test ≡ s.test
    → t.is_closed ≡ s.is_closed
    → t.queue ≡ s.queue
    → t.results ≡ s.results
    → IsBounded t
same-IsBounded s t i p q r u = record {
  closed = q ∙ i.closed ∙ ap has_closed (sym p);
  bounded = rw (r, u) i.bounded;
  unread = rw (p, u) i.unread;
  emptied = rw (p, r) i.emptied;
}

ServerStep-IsBounded : {s t : TestServer} → ServerStep s t → IsBounded s → IsBounded t
ServerStep-IsBounded {s} (request e f) i = same-IsBounded s _ i refl refl refl refl
ServerStep-IsBounded {s} (written n e) i = same-IsBounded s _ i refl refl refl refl
ServerStep-IsBounded {s} (write_fails n x e) i = same-IsBounded s _ i refl refl refl refl
ServerStep-IsBounded {s} (handler_sends xs ys x e c l) i =
    send_error-IsBounded s (record s { failed = xs ++ ys }) x i c l refl refl refl refl
ServerStep-IsBounded {s} (handler_panics xs ys x e c) i = same-IsBounded s _ i refl refl refl refl
ServerStep-IsBounded {s} (serve_fails x e f) i = same-IsBounded s _ i refl refl refl refl
ServerStep-IsBounded {s} (serve_ends e f) i = same-IsBounded s _ i refl refl refl refl
ServerStep-IsBounded {s} (serve_sends x e c l) i =
    send_error-IsBounded s (record s { serve = over }) x i c l refl refl refl refl
ServerStep-IsBounded {s} (serve_panics x e c) i = same-IsBounded s _ i refl refl refl refl

Reach-IsBounded : {s t : TestServer} → Reach s t → IsBounded s → IsBounded t
Reach-IsBounded here i = i
Reach-IsBounded (next r (tests p x)) i = TestStep-IsBounded x (Reach-IsBounded r i)
Reach-IsBounded (next r (serves p x)) i = ServerStep-IsBounded x (Reach-IsBounded r i)

-- The goroutine of the test can go on before a panic, to a state from which fewer of its steps are left.
abbrev pub CanGoOn : TestServer → Type 0
CanGoOn s = (t : TestServer) × (s.panicked ≡ false) × TestStep s t × (left t < left s)

go_on : (s : TestServer) → IsBounded s → (s.panicked ≡ true) ⊎ (s.test ≡ done) ⊎ CanGoOn s
unfolding close_server close_errors report end_test
go_on s i = elim (Bool-cases s.panicked) [
  | inl p ↦ inl p
  | inr p ↦ inr (go p s.test s.queue refl refl)
]
  where
    go :
        s.panicked ≡ false
        → (p : Test) (q : List Error) → s.test ≡ p
        → s.queue ≡ q
        → (s.test ≡ done) ⊎ CanGoOn s
    go f0 testing q e f = inr (close_server s, f0, closes_server e, rw e (omega arith))
    go f0 server_closed q e f =
        inr (close_errors s, f0, closes_errors e, rw e (omega (arith, i.bounded)))
    go f0 reading [] e f = inr (end_test s, f0, finishes e f, rw e (omega arith))
    go f0 reading (x ∷ rest) e f =
        inr (report x rest s, f0, reports x rest e f, rw (e, f) (omega arith))
    go f0 done q e f = inl e

left-TestStep : {s t : TestServer} → TestStep s t → IsBounded s → left t < left s
unfolding close_server close_errors report end_test
left-TestStep (closes_server e) i = rw e (omega arith)
left-TestStep (closes_errors e) i = rw e (omega (arith, i.bounded))
left-TestStep (reports x rest e q) i = rw (e, q) (omega arith)
left-TestStep (finishes e q) i = rw e (omega arith)

-- While the channel is open its length does not matter.
left-open :
    (s : TestServer) (n : ℕ)
    → has_closed s.test ≡ false
    → left_of s.test n ≡ left_of s.test (length s.queue)
left-open s n c = go s.test c
  where
    go : (p : Test) → has_closed p ≡ false → left_of p n ≡ left_of p (length s.queue)
    go testing e = refl
    go server_closed e = refl
    go reading e = absurd (cc e)
    go done e = absurd (cc e)

left-ServerStep : {s t : TestServer} → ServerStep s t → IsBounded s → left t ≡ left s
left-ServerStep (request e f) i = refl
left-ServerStep (written n e) i = refl
left-ServerStep (write_fails n x e) i = refl
left-ServerStep {s} (handler_sends xs ys x e c l) i = left-open s _ (sym i.closed ∙ c)
left-ServerStep (handler_panics xs ys x e c) i = refl
left-ServerStep (serve_fails x e f) i = refl
left-ServerStep (serve_ends e f) i = refl
left-ServerStep {s} (serve_sends x e c l) i = left-open s _ (sym i.closed ∙ c)
left-ServerStep (serve_panics x e c) i = refl

-- How many steps of a run are those of the test.
abbrev pub test_steps : {s t : TestServer} → Reach s t → ℕ
test_steps here = 0
test_steps (next r (tests p x)) = test_steps r + 1
test_steps (next r (serves p x)) = test_steps r

test_steps-left : {s t : TestServer} (r : Reach s t) → IsBounded s → test_steps r + left t ≤ left s
test_steps-left here i = omega arith
test_steps-left (next r (tests p x)) i =
    omega (arith, test_steps-left r i, left-TestStep x (Reach-IsBounded r i))
test_steps-left (next r (serves p x)) i =
    omega (arith, test_steps-left r i, left-ServerStep x (Reach-IsBounded r i))

-- However the server's goroutines interleave with the one that runs the test, the latter makes at
-- most five steps from the closing of the server on, and at any time it has come to its end or can
-- make one, unless the Envoy has panicked; the results have at most two errors of the server; and at the end no error is left in
-- the channel.
pub test_server-terminates :
    {s : TestServer} (r : Reach start_test_config_server s)
    → (test_steps r ≤ 5)
      × ((s.panicked ≡ true) ⊎ (s.test ≡ done) ⊎ CanGoOn s)
      × (length s.results ≤ config_server_errors_size)
      × ((s.test ≢ done) ⊎ (s.queue ≡ []))
test_server-terminates r =
    let i = Reach-IsBounded r start-IsBounded in
    (
      omega (arith, test_steps-left r start-IsBounded, start_left),
      go_on _ i,
      omega (arith, i.bounded),
      i.emptied,
    )
  where
    start_left : left start_test_config_server ≡ 5
    start_left = unfold start_test_config_server in refl

-- An error of Serve before the server is closed may come to its send after the channel is closed.
late_error_panics :
    (e : Error) → (s : TestServer) × Reach start_test_config_server s × (s.panicked ≡ true)
unfolding start_test_config_server close_server close_errors
late_error_panics e = (
  _,
  next
      (next
        (next (next here (serves refl (serve_fails e refl refl))) (tests refl (closes_server refl)))
        (tests refl (closes_errors refl)))
      (serves refl (serve_panics e refl refl)),
  refl,
)
