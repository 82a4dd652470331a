-- ===== src/Commands/Startup/Bound.antt =====
-- What the Binds of all ingestors come to.
use salus_telemetry_envoy.Common.{
  ◌==◌, nat_eq, string_eq, texts_eq, List, [], ◌∷◌, String, if◌then◌else◌, Bool, true, false, arith,
  ◌≡◌, refl, sym, ap, ◌∙◌, not, ◌&&◌, ◌||◌, Option, none, some,
}
use mathlib.Core.Path.{subst}
use salus_telemetry_envoy.Common.Assoc.{Assoc, lookup}
use salus_telemetry_envoy.Common.Result.{Result, ok, err, Error, wrap}
use salus_telemetry_envoy.Config.Listeners.{HostPort, get_listener_address}
use salus_telemetry_envoy.Ingest.Bind.{
  bind, Bound, IsBound, disabled, failed, unsplit, bound, bind-IsBound,
}
use salus_telemetry_envoy.Agents.Files.{returned, panicked}
use salus_telemetry_envoy.Commands.Startup.{
  Ingestor, listener, perf_test, then_bind, Binding, bind_ingestor, bind_all,
}

-- The error of the first configured ingestor that cannot listen.
abbrev pub first_failure : List Ingestor → Option Error
first_failure [] = none
first_failure (listener failure name address (err e) ∷ rest) =
    if address == "" then first_failure rest else some (wrap failure e)
first_failure (_ ∷ rest) = first_failure rest

abbrev pub is_none : {A : Type 0} → Option A → Bool
is_none none = true
is_none (some a) = false

-- Some configured ingestor listens at an address that cannot be split.
abbrev pub any_unsplit : HostPort → List Ingestor → Bool
any_unsplit net [] = false
any_unsplit net (listener failure name address (ok actual) ∷ rest) =
    (not (address == "") && is_none (net.split actual)) || any_unsplit net rest
any_unsplit net (_ ∷ rest) = any_unsplit net rest

abbrev pub joined : HostPort → Option (String × String) → String → String
joined net none d = d
joined net (some (host, port)) d = net.join (if host == "0.0.0.0" then "127.0.0.1" else host) port

abbrev pub reachable : HostPort → Result String → String → String
reachable net (err e) d = d
reachable net (ok actual) d = joined net (net.split actual) d

-- Where the last of the configured ingestors with a name is reached.
abbrev pub reached_at : HostPort → String → List Ingestor → String → String
reached_at net name [] d = d
reached_at net name (listener failure own address listened ∷ rest) d =
    reached_at net name rest
      (if address == "" then d else if own == name then reachable net listened d else d)
reached_at net name (perf_test port rate floats ∷ rest) d = reached_at net name rest d

-- What a Bind, or all of them, can come to.
pub data IsBinding (net : HostPort) (name : String) (is : List Ingestor) (d : String) (b : Binding)
    : Type 0 where
  binding_failed :
      (e : Error) → b.0 ≡ returned (err e) → first_failure is ≡ some e → IsBinding net name is d b
  binding_unsplit : b.0 ≡ panicked → any_unsplit net is ≡ true → IsBinding net name is d b
  all_bound :
      b.0 ≡ returned (ok tt)
      → first_failure is ≡ none
      → any_unsplit net is ≡ false
      → get_listener_address name b.1 ≡ reached_at net name is d
      → IsBinding net name is d b

disabled-first_failure :
    (f n a : String) (l : Result String)
    → (a == "") ≡ true
    → first_failure (listener f n a l ∷ []) ≡ none
disabled-first_failure f n a (ok x) e = refl
disabled-first_failure f n a (err x) e = rw e refl

disabled-any_unsplit :
    (net : HostPort) (f n a : String) (l : Result String)
    → (a == "") ≡ true
    → any_unsplit net (listener f n a l ∷ []) ≡ false
disabled-any_unsplit net f n a (ok x) e = rw e refl
disabled-any_unsplit net f n a (err x) e = refl

one-IsBinding :
    (net : HostPort) (name : String) (i : Ingestor) (m : Assoc String String)
    → IsBinding net name (i ∷ []) (get_listener_address name m) (bind_ingestor net i m)
unfolding bind_ingestor
one-IsBinding net name (perf_test port rate floats) m = all_bound refl refl refl refl
one-IsBinding net name (listener failure own address listened) m =
    by_bound listened (bind net failure own address listened m)
      (bind-IsBound net failure own address listened m name)
  where
    by_bound :
        (l : Result String) (b : Bound)
        → IsBound net failure own address l m name b
        → IsBinding net name
            (listener failure own address l ∷ [])
            (get_listener_address name m)
            (b.0, b.2)
    by_bound l b (disabled a e) =
        all_bound (ap (λ (x : Bound). x.0) e) (disabled-first_failure failure own address l a)
          (disabled-any_unsplit net failure own address l a) (ground arith)
    by_bound l b (failed x a f e) = binding_failed _ (ap (λ (x : Bound). x.0) e) (rw (f, a) refl)
    by_bound l b (unsplit actual a f n e) = binding_unsplit e (rw (f, a, n) refl)
    by_bound l b (bound actual host port a f n e t g) =
        all_bound e (rw f refl) (rw (f, a, n) refl) (rw (f, a, n) g)

-- One Bind after another.
first-first_failure :
    (e : Error) (i : Ingestor) (rest : List Ingestor)
    → first_failure (i ∷ []) ≡ some e
    → first_failure (i ∷ rest) ≡ some e
first-first_failure e (listener f n a (ok x)) rest h = absurd (cc h)
first-first_failure e (listener f n a (err x)) rest h = ground arith
first-first_failure e (perf_test p r f) rest h = absurd (cc h)

later-first_failure :
    (i : Ingestor) (rest : List Ingestor)
    → first_failure (i ∷ []) ≡ none
    → first_failure (i ∷ rest) ≡ first_failure rest
later-first_failure (listener f n a (ok x)) rest h = refl
later-first_failure (listener f n a (err x)) rest h = ground arith
later-first_failure (perf_test p r f) rest h = refl

first-any_unsplit :
    (net : HostPort) (i : Ingestor) (rest : List Ingestor)
    → any_unsplit net (i ∷ []) ≡ true
    → any_unsplit net (i ∷ rest) ≡ true
first-any_unsplit net (listener f n a (ok x)) rest h = ground arith
first-any_unsplit net (listener f n a (err x)) rest h = absurd (cc h)
first-any_unsplit net (perf_test p r f) rest h = absurd (cc h)

later-any_unsplit :
    (net : HostPort) (i : Ingestor) (rest : List Ingestor) (b : Bool)
    → any_unsplit net (i ∷ []) ≡ false
    → any_unsplit net rest ≡ b
    → any_unsplit net (i ∷ rest) ≡ b
later-any_unsplit net (listener f n a (ok x)) rest b g h = ground arith
later-any_unsplit net (listener f n a (err x)) rest b g h = h
later-any_unsplit net (perf_test p r f) rest b g h = h

reached_at-cons :
    (net : HostPort) (name : String) (i : Ingestor) (rest : List Ingestor) (d : String)
    → reached_at net name (i ∷ rest) d ≡ reached_at net name rest (reached_at net name (i ∷ []) d)
reached_at-cons net name (listener f n a l) rest d = refl
reached_at-cons net name (perf_test p r f) rest d = refl

then_bind-IsBinding :
    (net : HostPort) (name : String) (i : Ingestor) (rest : List Ingestor) (d : String)
    (b : Binding) (k : Assoc String String → Binding)
    → IsBinding net name (i ∷ []) d b
    → ((m : Assoc String String) → IsBinding net name rest (get_listener_address name m) (k m))
    → IsBinding net name (i ∷ rest) d (then_bind b k)
then_bind-IsBinding net name i rest d (returned (ok u), m) k o more = elim o [
  | binding_failed e x f ↦ absurd (cc x)
  | binding_unsplit x f ↦ absurd (cc x)
  | all_bound x a s g ↦ elim (more m) [
    | binding_failed e y f ↦ binding_failed e y (later-first_failure i rest a ∙ f)
    | binding_unsplit y f ↦ binding_unsplit y (later-any_unsplit net i rest true s f)
    | all_bound y b t q ↦
        all_bound y (later-first_failure i rest a ∙ b) (later-any_unsplit net i rest false s t)
          (rw (reached_at-cons net name i rest d, ← g) q)
  ]
]
then_bind-IsBinding net name i rest d (returned (err x), m) k o more = elim o [
  | binding_failed e y f ↦ binding_failed e y (first-first_failure e i rest f)
  | binding_unsplit y f ↦ absurd (cc y)
  | all_bound y a s g ↦ absurd (cc y)
]
then_bind-IsBinding net name i rest d (panicked, m) k o more = elim o [
  | binding_failed e y f ↦ absurd (cc y)
  | binding_unsplit y f ↦ binding_unsplit refl (first-any_unsplit net i rest f)
  | all_bound y a s g ↦ absurd (cc y)
]

bind_all-IsBinding :
    (net : HostPort) (name : String) (is : List Ingestor) (m : Assoc String String)
    → IsBinding net name is (get_listener_address name m) (bind_all net is m)
unfolding bind_all
bind_all-IsBinding net name [] m = all_bound refl refl refl refl
bind_all-IsBinding net name (i ∷ rest) m =
    then_bind-IsBinding net name i rest _ (bind_ingestor net i m) _ (one-IsBinding net name i m)
      (bind_all-IsBinding net name rest)

-- All ingestors are bound, with no failure, where their Binds came to this.
pub record AllBound (net : HostPort) (name : String) (is : List Ingestor) (m : Assoc String String)
    : Type 0 where
  pub unfailed : first_failure is ≡ none
  pub split : any_unsplit net is ≡ false
  pub reached : get_listener_address name m ≡ reached_at net name is ""

pub IsBinding-AllBound :
    (net : HostPort) (name : String) (is : List Ingestor) (b : Binding) (m : Assoc String String)
    → b ≡ (returned (ok tt), m)
    → IsBinding net name is "" b
    → AllBound net name is m
IsBinding-AllBound net name is b m e (binding_failed x y f) =
    absurd (cc (ap (λ (c : Binding). c.0) e, y))
IsBinding-AllBound net name is b m e (binding_unsplit y f) =
    absurd (cc (ap (λ (c : Binding). c.0) e, y))
IsBinding-AllBound net name is b m e (all_bound y a s g) = record {
  unfailed = a;
  split = s;
  reached = ap (λ (c : Binding). get_listener_address name c.1) (sym e) ∙ g;
}

nothing-reached : (name : String) → get_listener_address name [] ≡ ""
unfolding get_listener_address lookup
nothing-reached name = refl

pub all-IsBinding :
    (net : HostPort) (name : String) (is : List Ingestor)
    → IsBinding net name is "" (bind_all net is [])
all-IsBinding net name is =
    subst (λ d. IsBinding net name is d (bind_all net is [])) (nothing-reached name)
      (bind_all-IsBinding net name is [])
