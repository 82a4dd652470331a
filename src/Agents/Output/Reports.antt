-- ===== src/Agents/Output/Reports.antt =====
-- What the reports on a command's output mean.
use salus_telemetry_envoy.Common.{
  ◌==◌, nat_eq, string_eq, texts_eq, List, [], ◌∷◌, String, Bool, true, false, arith, ◌≡◌, ◌≢◌, ◌⊎◌,
  refl, ◌||◌, ℕ, ◌+◌, ◌≤◌, ◌<◌, Option, none, some, length,
}
use salus_telemetry_envoy.Common.Texts.{contains}
use salus_telemetry_envoy.Common.Result.{Result, ok}
use salus_telemetry_envoy.Agents.Process.{
  signal_result, deadline, phrase_seen, output_closed, FirstSignal,
}
use salus_telemetry_envoy.Agents.Output.{
  Phase, sending, ended, Starter, waiting, gave_up, got, stdout, stderr, Output,
  setup_command_logging, read_line, reported, Step, selects, reads, fails, sends, finishes, takes,
  gives_up, cancels, Reach, here, next, start_result, wait_for_chan_size,
}

-- Some line has the phrase.
abbrev pub mentions : String → List String → Bool
mentions w [] = false
mentions w (l ∷ ls) = contains l w || mentions w ls

abbrev pub falses : List Bool → ℕ
falses [] = 0
falses (true ∷ bs) = falses bs
falses (false ∷ bs) = falses bs + 1

abbrev pub has_true : List Bool → Bool
has_true [] = false
has_true (b ∷ bs) = b || has_true bs

abbrev pub got_false : Starter → ℕ
got_false (got false) = 1
got_false _ = 0

abbrev pub got_true : Starter → Bool
got_true (got true) = true
got_true _ = false

abbrev pub ended_count : Phase → ℕ
ended_count ended = 1
ended_count _ = 0

abbrev pub sends_true : Phase → Bool
sends_true (sending true) = true
sends_true _ = false

abbrev is_waiting : Starter → Bool
is_waiting waiting = true
is_waiting _ = false

-- What holds at any time, of a command with these lines.
pub record IsReported (w : String) (out errs : List String) (s : Output) : Type 0 where
  pub phrase : s.wait_for ≡ w
  pub counted :
      ended_count s.out.phase + ended_count s.errs.phase
      ≡ falses s.wait_for_chan + got_false s.starter
  pub bounded : length s.wait_for_chan ≤ wait_for_chan_size
  pub prefilled :
      ((w == "") ≡ false)
      ⊎ ((s.starter ≡ waiting) × (s.wait_for_chan ≡ true ∷ []))
      ⊎ ((is_waiting s.starter ≡ false) × (got_false s.starter ≡ 0))
  pub rest_out : (mentions w s.out.lines ≡ false) ⊎ (mentions w out ≡ true)
  pub rest_errs : (mentions w s.errs.lines ≡ false) ⊎ (mentions w errs ≡ true)
  pub seen :
      ((has_true s.wait_for_chan
          || got_true s.starter
          || sends_true s.out.phase
          || sends_true s.errs.phase)
        ≡ false)
      ⊎ ((w == "") ≡ true)
      ⊎ ((mentions w out || mentions w errs) ≡ true)

start-IsReported :
    (w : String) (out errs : List String) → IsReported w out errs (setup_command_logging w out errs)
unfolding setup_command_logging
start-IsReported w out errs = ground arith

nil_of_room : (bs : List Bool) → length bs < wait_for_chan_size → bs ≡ []
nil_of_room [] h = refl
nil_of_room (b ∷ bs) h = absurd (omega arith)

Step-IsReported :
    {s t : Output} (w : String) (out errs : List String)
    → Step s t
    → IsReported w out errs s
    → IsReported w out errs t
unfolding read_line reported
Step-IsReported w out errs (selects stdout p c) r = ground arith
Step-IsReported w out errs (reads stdout l rest p e) r = ground arith
Step-IsReported w out errs (selects stderr p c) r = ground arith
Step-IsReported w out errs (reads stderr l rest p e) r = ground arith
Step-IsReported w out errs (fails stdout p) r = ground arith
Step-IsReported w out errs (fails stderr p) r = ground arith
Step-IsReported {s} w out errs (sends stdout b p l) r =
    ground (arith, nil_of_room s.wait_for_chan l)
Step-IsReported {s} w out errs (sends stderr b p l) r =
    ground (arith, nil_of_room s.wait_for_chan l)
Step-IsReported w out errs (finishes stdout p c) r = ground arith
Step-IsReported w out errs (finishes stderr p c) r = ground arith
Step-IsReported w out errs (takes b rest p e) r = ground arith
Step-IsReported w out errs (gives_up p) r = ground arith
Step-IsReported w out errs cancels r = ground arith

pub Reach-IsReported :
    (w : String) (out errs : List String) (s : Output)
    → Reach (setup_command_logging w out errs) s
    → IsReported w out errs s
Reach-IsReported w out errs s here = start-IsReported w out errs
Reach-IsReported w out errs s (next {t} r st) =
    Step-IsReported w out errs st (Reach-IsReported w out errs t r)

-- Which signal of the abstract start the select took; none before it took one.
abbrev pub signal_of : Starter → Option FirstSignal
signal_of waiting = none
signal_of gave_up = some deadline
signal_of (got true) = some phrase_seen
signal_of (got false) = some output_closed

abbrev pub map_signal : String → Option FirstSignal → Option (Result (Unit {0}))
map_signal w none = none
map_signal w (some f) = some (signal_result w f)

-- However the two readers, the select and the end of the command interleave, StartAgentCommand
-- returns what the model of the processes gives for its first signal; it returns no error only
-- if there is no phrase to wait for or a line of the output has it; with no phrase it never
-- takes the end of the output for its signal; and the channel never exceeds its capacity.
pub start_result-IsReported :
    (w : String) (out errs : List String) (s : Output)
    → Reach (setup_command_logging w out errs) s
    → (start_result s.starter ≡ map_signal w (signal_of s.starter))
      × ((start_result s.starter ≢ some (ok tt))
          ⊎ ((w == "") ≡ true)
          ⊎ ((mentions w out || mentions w errs) ≡ true))
      × (((w == "") ≡ false) ⊎ (signal_of s.starter ≢ some output_closed))
      × (length s.wait_for_chan ≤ wait_for_chan_size)
unfolding start_result
start_result-IsReported w out errs s r =
    let i = Reach-IsReported w out errs s r in (ground arith, ground arith, ground arith, i.bounded)
