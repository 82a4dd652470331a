-- ===== src/Agents/Output/Leak.antt =====
-- A reader that never comes to its end.
use salus_telemetry_envoy.Common.{
  nat_eq, string_eq, texts_eq, List, [], ◌∷◌, String, Bool, true, false, arith, ◌≡◌, ◌⊎◌, not, ◌≤◌,
  length,
}
use salus_telemetry_envoy.Agents.Output.{
  Phase, sending, ended, Starter, waiting, gave_up, got, stdout, stderr, Output,
  setup_command_logging, reported, Step, selects, reads, fails, sends, finishes, takes, gives_up,
  cancels, Reach, here, next,
}
use salus_telemetry_envoy.Agents.Output.Reports.{IsReported, Reach-IsReported, falses}

-- The select took the phrase's report, or its deadline.
abbrev pub is_satisfied : Starter → Bool
is_satisfied waiting = false
is_satisfied gave_up = true
is_satisfied (got b) = b

-- The reader came to the end of the output.
abbrev pub is_at_end : Phase → Bool
is_at_end (sending b) = not b
is_at_end ended = true
is_at_end _ = false

-- Both readers came to their ends after the start.
pub record IsOver (s : Output) : Type 0 where
  pub satisfied : is_satisfied s.starter ≡ true
  pub out : is_at_end s.out.phase ≡ true
  pub errs : is_at_end s.errs.phase ≡ true

Step-IsOver : {s t : Output} → Step s t → IsOver s → IsOver t
unfolding reported
Step-IsOver (selects stdout p c) o = ground arith
Step-IsOver (reads stdout l rest p e) o = ground arith
Step-IsOver (selects stderr p c) o = ground arith
Step-IsOver (reads stderr l rest p e) o = ground arith
Step-IsOver (fails stdout p) o = ground arith
Step-IsOver (fails stderr p) o = ground arith
Step-IsOver (sends stdout b p l) o = ground arith
Step-IsOver (sends stderr b p l) o = ground arith
Step-IsOver (finishes stdout p c) o = ground arith
Step-IsOver (finishes stderr p c) o = ground arith
Step-IsOver (takes b rest p e) o = ground arith
Step-IsOver (gives_up p) o = ground arith
Step-IsOver cancels o = ground arith

Reach-IsOver : {s t : Output} → IsOver s → Reach s t → IsOver t
Reach-IsOver o here = o
Reach-IsOver o (next r st) = Step-IsOver st (Reach-IsOver o r)

Reach-trans : {s t u : Output} → Reach s t → Reach t u → Reach s u
Reach-trans r here = r
Reach-trans r (next q st) = next (Reach-trans r q) st

falses-le-length : (bs : List Bool) → falses bs ≤ length bs
falses-le-length [] = omega arith
falses-le-length (true ∷ bs) = omega (arith, falses-le-length bs)
falses-le-length (false ∷ bs) = omega (arith, falses-le-length bs)

one_is_stuck :
    (w : String) (out errs : List String) (s : Output)
    → IsReported w out errs s
    → IsOver s
    → (s.out.phase ≡ sending false) ⊎ (s.errs.phase ≡ sending false)
one_is_stuck w out errs s i o = ground (arith, falses-le-length s.wait_for_chan)

-- Once a command was started as wanted, or given up at the deadline, and both its readers came to
-- the end of its output, then at every later time one of the two goroutines is blocked at its
-- last send, its pipe unclosed, also after the context has ended.
pub reader_is_stuck :
    (w : String) (out errs : List String) (s t : Output)
    → Reach (setup_command_logging w out errs) s
    → IsOver s
    → Reach s t
    → (t.out.phase ≡ sending false) ⊎ (t.errs.phase ≡ sending false)
reader_is_stuck w out errs s t r o q =
    one_is_stuck w out errs t (Reach-IsReported w out errs t (Reach-trans r q)) (Reach-IsOver o q)
