-- ===== src/Commands/Interrupts.antt =====
-- handleInterrupts of cmd/common.go: the loop that waits for a signal and ends the process. The
-- Go runtime delivers a signal without blocking, so one that finds the channel full is lost.
use salus_telemetry_envoy.Common.{
  nat_eq, string_eq, texts_eq, Bool, true, false, leb, arith, ◌≡◌, ◌≢◌, ◌⊎◌, inl, inr, refl, ◌||◌,
  ℕ, zero, suc, ◌+◌, ◌≤◌, ◌<◌, Option, none, some,
}

pub record Main : Type 0 where
  -- signalChan
  pub pending : ℕ
  pub cancelled : Bool
  -- os.Exit's code
  pub exited : Option ℕ

abbrev pub signal_chan_size : ℕ
signal_chan_size = 1

-- After the body.
abbrev pub waiting : Main
waiting = record { pending = 0; cancelled = false; exited = none }

-- The select of the loop.
pub data Round (s : Main) : Main → Type 0 where
  cancels :
      (n : ℕ)
      → s.exited ≡ none
      → s.pending ≡ suc n
      → Round s (record s { pending = n; cancelled = true })
  exits : s.exited ≡ none → s.cancelled ≡ true → Round s (record s { exited = some 0 })

pub data Step (s : Main) : Main → Type 0 where
  loops : {t : Main} → Round s t → Step s t
  notifies : s.pending < signal_chan_size → Step s (record s { pending = s.pending + 1 })
  loses : signal_chan_size ≤ s.pending → Step s s

pub data Reach (s : Main) : Main → Type 0 where
  here : Reach s s
  next : {t u : Main} → Reach s t → Step t u → Reach s u

-- A number of rounds of the loop with no further signal.
pub data Rounds (s : Main) : ℕ → Main → Type 0 where
  no_round : Rounds s 0 s
  round : {n : ℕ} {t u : Main} → Rounds s n t → Round t u → Rounds s (suc n) u

-- A signal was delivered.
abbrev pub was_notified : Main → Bool
was_notified s = leb 1 s.pending || s.cancelled

pub record IsSound (s : Main) : Type 0 where
  pub bounded : s.pending ≤ signal_chan_size
  pub after_cancel : (s.exited ≡ none) ⊎ ((s.exited ≡ some 0) × (s.cancelled ≡ true))

Step-IsSound : {s t : Main} → Step s t → IsSound s → IsSound t
Step-IsSound (loops (cancels n e p)) i = ground arith
Step-IsSound (loops (exits e c)) i = ground arith
Step-IsSound (notifies p) i = ground arith
Step-IsSound (loses p) i = i

Reach-IsSound : {s : Main} → Reach waiting s → IsSound s
Reach-IsSound here = record { bounded = omega arith; after_cancel = inl refl }
Reach-IsSound (next r st) = Step-IsSound st (Reach-IsSound r)

-- What is left to do falls with each round.
abbrev left : Main → ℕ
left s = s.pending + (elim s.exited [ none ↦ 1 | some _ ↦ 0 ])

Round-left : {s t : Main} → Round s t → left t < left s
Round-left (cancels n e p) = ground arith
Round-left (exits e c) = ground arith

Rounds-left : {s : Main} (n : ℕ) {t : Main} → Rounds s n t → n + left t ≤ left s
Rounds-left n no_round = omega arith
Rounds-left (suc n) (round r l) = omega (arith, Rounds-left n r, Round-left l)

Round-notified : {s t : Main} → Round s t → was_notified s ≡ true → was_notified t ≡ true
Round-notified (cancels n e p) w = ground arith
Round-notified (exits e c) w = ground arith

Rounds-notified :
    {s : Main} {n : ℕ} {t : Main} → Rounds s n t → was_notified s ≡ true → was_notified t ≡ true
Rounds-notified no_round w = w
Rounds-notified (round r l) w = Round-notified l (Rounds-notified r w)

-- The loop can go on, or the process has ended.
goes_on : (s : Main) → was_notified s ≡ true → ((t : Main) × Round s t) ⊎ (s.exited ≢ none)
goes_on s w = by_exit s.exited refl
  where
    by_pending :
        (n : ℕ) → s.exited ≡ none → s.pending ≡ n → ((t : Main) × Round s t) ⊎ (s.exited ≢ none)
    by_pending zero x p = inl (_, exits x (ground arith))
    by_pending (suc n) x p = inl (_, cancels n x p)

    by_exit : (e : Option ℕ) → s.exited ≡ e → ((t : Main) × Round s t) ⊎ (s.exited ≢ none)
    by_exit none x = by_pending s.pending x refl
    by_exit (some c) x = inr (λ e. cc (x, e))

left_bound : {s : Main} {n : ℕ} (k : ℕ) → IsSound s → n + k ≤ left s → n ≤ 2
left_bound k i h = ground arith

Rounds-IsSound : {s : Main} {n : ℕ} {t : Main} → Rounds s n t → IsSound s → IsSound t
Rounds-IsSound no_round i = i
Rounds-IsSound (round r l) i = Step-IsSound (loops l) (Rounds-IsSound r i)

-- Once a signal was delivered, and as long as no further one is, the loop makes at most two rounds;
-- after each of them it can make another or the process has exited, with code 0 and a cancelled
-- context.
pub handle_interrupts-exits :
    (s : Main) (n : ℕ) (t : Main)
    → Reach waiting s
    → was_notified s ≡ true
    → Rounds s n t
    → (n ≤ 2) × (((u : Main) × Round t u) ⊎ ((t.exited ≡ some 0) × (t.cancelled ≡ true)))
handle_interrupts-exits s n t r w q =
    let i = Reach-IsSound r in
    (
      left_bound (left t) i (Rounds-left n q),
      by_end (goes_on t (Rounds-notified q w)) (Rounds-IsSound q i),
    )
  where
    by_end :
        ((u : Main) × Round t u) ⊎ (t.exited ≢ none)
        → IsSound t
        → ((u : Main) × Round t u) ⊎ ((t.exited ≡ some 0) × (t.cancelled ≡ true))
    by_end (inl l) k = inl l
    by_end (inr x) k = inr (ground arith)
