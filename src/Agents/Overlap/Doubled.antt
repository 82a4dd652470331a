-- ===== src/Agents/Overlap/Doubled.antt =====
-- Two calls of telegraf's EnsureRunningState at the same time.
use salus_telemetry_envoy.Common.{
  nat_eq, string_eq, texts_eq, ◌++◌, List, [], ◌∷◌, Bool, true, false, ◌≡◌, refl, ap, ℕ, zero, suc,
  none, some, length, get_elem?, set,
}
use mathlib.Core.List.{append_assoc}
use salus_telemetry_envoy.Paths.{FilePath}
use salus_telemetry_envoy.Agents.Process.{
  AgentRunningContext, Processes, Host, phrase_seen, launched, next_launch, is_running, stop,
  stop_and_forget,
}
use salus_telemetry_envoy.Agents.Telegraf.{has_required_paths}
use salus_telemetry_envoy.Agents.Overlap.{starting, new_context, add_context, begin, finish}

-- The runner holds nothing, or the context of a process that has ended.
pub data HoldsEnded (p : Processes) : Type 0 where
  holds_none : p.running ≡ none → HoldsEnded p
  holds_ended :
      (i : ℕ) (c : AgentRunningContext)
      → p.running ≡ some i
      → get_elem? p.ctxs i ≡ some c
      → c.has_cmd ≡ false
      → HoldsEnded p

-- A process that was started and is waited for.
abbrev pub live_context : AgentRunningContext
live_context = record new_context { watched = true }

module _ {A : Type 0} where
  pub get_elem?-append :
      (xs ys : List A) (i : ℕ) (c : A) → get_elem? xs i ≡ some c → get_elem? (xs ++ ys) i ≡ some c
  get_elem?-append [] ys i c h = absurd (cc h)
  get_elem?-append (x ∷ xs) ys zero c h = h
  get_elem?-append (x ∷ xs) ys (suc i) c h = get_elem?-append xs ys i c h

  pub get_elem?-middle : (xs ys : List A) (x : A) → get_elem? (xs ++ x ∷ ys) (length xs) ≡ some x
  get_elem?-middle [] ys x = refl
  get_elem?-middle (w ∷ xs) ys x = get_elem?-middle xs ys x

  get_elem?-second :
      (xs ys : List A) (x y : A) → get_elem? (xs ++ x ∷ y ∷ ys) (suc (length xs)) ≡ some y
  get_elem?-second [] ys x y = refl
  get_elem?-second (w ∷ xs) ys x y = get_elem?-second xs ys x y

  pub set-middle : (xs ys : List A) (x v : A) → set (xs ++ x ∷ ys) (length xs) v ≡ xs ++ v ∷ ys
  set-middle [] ys x v = refl
  set-middle (w ∷ xs) ys x v = ap (λ (r : List A). w ∷ r) (set-middle xs ys x v)

  set-second :
      (xs ys : List A) (x y v : A) → set (xs ++ x ∷ y ∷ ys) (suc (length xs)) v ≡ xs ++ x ∷ v ∷ ys
  set-second [] ys x y v = refl
  set-second (w ∷ xs) ys x y v = ap (λ (r : List A). w ∷ r) (set-second xs ys x y v)

  length-snoc : (xs : List A) (x : A) → length (xs ++ x ∷ []) ≡ suc (length xs)
  length-snoc [] x = refl
  length-snoc (w ∷ xs) x = ap suc (length-snoc xs x)

not_running : {p : Processes} → HoldsEnded p → is_running p ≡ false
unfolding is_running
not_running (holds_none e) = rw e refl
not_running (holds_ended i c e g h) = rw (e, g) h

pub add-HoldsEnded :
    {p : Processes} (c : AgentRunningContext) → HoldsEnded p → HoldsEnded (add_context c p)
add-HoldsEnded c (holds_none e) = holds_none e
add-HoldsEnded {p} c (holds_ended i d e g h) =
    holds_ended i d e (get_elem?-append p.ctxs (c ∷ []) i d g) h

-- A call that begins where nothing runs.
pub begun :
    (base : FilePath) (apply_configs : Bool) (p : Processes) (h : Host)
    → (has_required_paths base h.fs).0 ≡ true
    → HoldsEnded p
    → next_launch h.launches ≡ launched phrase_seen
    → ((begin base apply_configs p h).0 ≡ starting (length p.ctxs) phrase_seen)
      × ((begin base apply_configs p h).1 ≡ add_context new_context p)
unfolding begin
begun base apply_configs p h r e l = rw (r, not_running e, l) (refl, refl)

-- Both calls come to their ends.
doubled :
    (p : Processes)
    → finish (starting (suc (length p.ctxs)) phrase_seen) (
        finish
          (starting (length p.ctxs) phrase_seen)
          (add_context new_context (add_context new_context p)))
      ≡ record p {
        ctxs = p.ctxs ++ live_context ∷ live_context ∷ [];
        running = some (suc (length p.ctxs));
      }
unfolding finish
doubled p =
    rw
      (
        append_assoc p.ctxs (new_context ∷ []) (new_context ∷ []),
        get_elem?-middle p.ctxs (new_context ∷ []) new_context,
        set-middle p.ctxs (new_context ∷ []) new_context live_context,
        get_elem?-second p.ctxs [] live_context new_context,
        set-second p.ctxs [] live_context new_context live_context,
      )
      refl

-- The second call begins before the first goes on.
abbrev pub overlapped : FilePath → Bool → Bool → Processes → Host → Processes
overlapped base apply_configs apply_configs' p h =
    let b = begin base apply_configs p h in
    let c = begin base apply_configs' b.1 b.2 in finish c.0 (finish b.0 c.1)

overlapped_lem :
    (base : FilePath) (apply_configs apply_configs' : Bool) (p : Processes) (h : Host)
    → HoldsEnded p
    → (has_required_paths base h.fs).0 ≡ true
    → (has_required_paths base (begin base apply_configs p h).2.fs).0 ≡ true
    → next_launch h.launches ≡ launched phrase_seen
    → next_launch (begin base apply_configs p h).2.launches ≡ launched phrase_seen
    → overlapped base apply_configs apply_configs' p h ≡ record p {
      ctxs = p.ctxs ++ live_context ∷ live_context ∷ [];
      running = some (suc (length p.ctxs));
    }
overlapped_lem base apply_configs apply_configs' p h d r r' l l' =
    let b = begun base apply_configs p h r d l in
    let c =
      begun base apply_configs' (add_context new_context p) (begin base apply_configs p h).2 r'
        (add-HoldsEnded new_context d) l' in
    rw (b.0, b.1, c.0, c.1, length-snoc p.ctxs new_context) (doubled p)

stop-second :
    (p : Processes) (k : Host)
    → let q : Processes = record p {
      ctxs = p.ctxs ++ live_context ∷ live_context ∷ [];
      running = some (suc (length p.ctxs));
    } in
      (get_elem? (stop_and_forget q k).0.ctxs (length p.ctxs) ≡ some live_context)
      × ((stop_and_forget q k).0.running ≡ none)
unfolding stop_and_forget stop
stop-second p k =
    rw
      (
        get_elem?-second p.ctxs [] live_context live_context,
        set-second p.ctxs [] live_context live_context,
      )
      (get_elem?-middle p.ctxs _ live_context, refl)

-- If a call of EnsureRunningState begins while another waits for its command's output, as the
-- timer of a restart may while the router handles an instruction, telegraf is installed, its last
-- process has ended and both starts work, then two processes run, of which the runner holds the
-- second; and after the runner's Stop the first is alive and was not told to stop.
pub overlapping_calls :
    (base : FilePath) (apply_configs apply_configs' : Bool) (p : Processes) (h k : Host)
    → HoldsEnded p
    → (has_required_paths base h.fs).0 ≡ true
    → (has_required_paths base (begin base apply_configs p h).2.fs).0 ≡ true
    → next_launch h.launches ≡ launched phrase_seen
    → next_launch (begin base apply_configs p h).2.launches ≡ launched phrase_seen
    → let q = overlapped base apply_configs apply_configs' p h in
      (get_elem? q.ctxs (length p.ctxs) ≡ some live_context)
      × (get_elem? q.ctxs (suc (length p.ctxs)) ≡ some live_context)
      × (q.running ≡ some (suc (length p.ctxs)))
      × (get_elem? (stop_and_forget q k).0.ctxs (length p.ctxs) ≡ some live_context)
      × ((stop_and_forget q k).0.running ≡ none)
overlapping_calls base apply_configs apply_configs' p h k d r r' l l' =
    let s = stop-second p k in
    rw (overlapped_lem base apply_configs apply_configs' p h d r r' l l') (
      get_elem?-middle p.ctxs _ live_context,
      get_elem?-second p.ctxs [] live_context live_context,
      refl,
      s.0,
      s.1,
    )
