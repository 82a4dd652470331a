-- ===== src/Ingest/Lumberjack.antt =====
-- ingest/lumberjack.go: batches of filebeat's events.
use salus_telemetry_envoy.Common.{
  nat_eq, string_eq, texts_eq, ◌++◌, List, [], ◌∷◌, map, String, if◌then◌else◌, Bool, true, false,
  ◌≡◌, ◌⊎◌, inl, inr, refl, sym, ℕ, ◌+◌,
}
use salus_telemetry_envoy.Common.Result.{Result, ok, err, is_ok}
use mathlib.Core.List.{map-append}
use salus_telemetry_envoy.Protocol.{filebeat}
use salus_telemetry_envoy.Ambassador.Egress.{Connection, Call, log_event, post_log_event}

-- string(eventBytes), of nil after an error
abbrev pub content_of : Result String → String
content_of (ok s) = s
content_of (err e) = ""

module _ {Event Float Tls : Type 0} (marshal : Event → Result String) where
  abbrev pub batch_calls : Connection Tls → List Event → List (Call Float)
  batch_calls c [] = []
  batch_calls c (e ∷ es) = post_log_event c filebeat (content_of (marshal e)) ++ batch_calls c es

  -- The calls that a batch makes, and whether it is acknowledged.
  unfoldable pub process_lumberjack_batch : Connection Tls → List Event → List (Call Float) × Bool
  unfolding post_log_event
  process_lumberjack_batch c events = (batch_calls c events, true)

  attached_calls :
      (c : Connection Tls) (events : List Event)
      → c.attached ≡ true
      → batch_calls c events ≡ map (λ e. log_event filebeat (content_of (marshal e))) events
  unfolding post_log_event
  attached_calls c [] h = refl
  attached_calls c (e ∷ es) h = rw (h, attached_calls c es h) refl

  unattached_calls :
      (c : Connection Tls) (events : List Event) → c.attached ≡ false → batch_calls c events ≡ []
  unfolding post_log_event
  unattached_calls c [] h = refl
  unattached_calls c (e ∷ es) h = rw (h, unattached_calls c es h) refl

-- What Start's select receives: a batch, with the connection at that time, or the end of the
-- context.
pub data Input (Event Tls : Type 0) : Type 0 where
  batch : Connection Tls → List Event → Input Event Tls
  context_done : Input Event Tls

-- Start before its loop or in it, or at its end.
pub data Stage : Type 0 where
  disabled failed serving closed : Stage

pub record Served (Float : Type 0) : Type 0 where
  pub calls : List (Call Float)
  pub acknowledged : ℕ
  pub stage : Stage

abbrev pub nothing : {Float : Type 0} → Stage → Served Float
nothing stage = record { calls = []; acknowledged = 0; stage = stage }

abbrev pub count : Bool → ℕ
count true = 1
count false = 0

abbrev pub then_serve : {Float : Type 0} → List (Call Float) × Bool → Served Float → Served Float
then_serve r rest = record {
  calls = r.0 ++ rest.calls;
  acknowledged = count r.1 + rest.acknowledged;
  stage = rest.stage;
}

module _ {Event Tls : Type 0} where
  -- The events that come from attached connections before the end of the context.
  abbrev pub passed_on : Connection Tls → List Event → List Event → List Event
  passed_on c events more = if c.attached then events ++ more else more

  abbrev pub passed_events : List (Input Event Tls) → List Event
  passed_events [] = []
  passed_events (batch c events ∷ rest) = passed_on c events (passed_events rest)
  passed_events (context_done ∷ rest) = []

  abbrev pub batches : List (Input Event Tls) → ℕ
  batches [] = 0
  batches (batch c events ∷ rest) = 1 + batches rest
  batches (context_done ∷ rest) = 0

  abbrev pub end_of : List (Input Event Tls) → Stage
  end_of [] = serving
  end_of (batch c events ∷ rest) = end_of rest
  end_of (context_done ∷ rest) = closed

module _ {Event Float : Type 0} (marshal : Event → Result String) where
  abbrev pub logged : List Event → List (Call Float)
  logged = map (λ e. log_event filebeat (content_of (marshal e)))

module _ {Event Float Tls : Type 0} (marshal : Event → Result String) where
  unfoldable pub serve : List (Input Event Tls) → Served Float
  serve [] = nothing serving
  serve (batch c events ∷ rest) =
      then_serve (process_lumberjack_batch {Float = Float} marshal c events) (serve rest)
  serve (context_done ∷ rest) = nothing closed

  abbrev pub begin : Result (Unit {0}) → List (Input Event Tls) → Served Float
  begin (err e) inputs = nothing failed
  begin (ok _) inputs = serve inputs

  -- Start, with whether there is a listener, and the error of the server's start, which is fatal.
  unfoldable pub start : Bool → Result (Unit {0}) → List (Input Event Tls) → Served Float
  unfolding serve
  start has_listener listened inputs =
      if has_listener then begin listened inputs else nothing disabled

  logged-passed_on :
      (c : Connection Tls) (events more : List Event)
      → batch_calls {Float = Float} marshal c events ++ logged marshal more
        ≡ logged marshal (passed_on c events more)
  logged-passed_on c events more = by_attached c.attached refl
    where
      by_attached :
          (b : Bool)
          → c.attached ≡ b
          → batch_calls {Float = Float} marshal c events ++ logged marshal more
            ≡ logged marshal (if b then events ++ more else more)
      by_attached true h = rw (attached_calls marshal c events h) (sym (map-append _ events more))
      by_attached false h = rw (unattached_calls marshal c events h) refl

  serve-eq :
      (inputs : List (Input Event Tls))
      → serve inputs ≡ record {
        calls = logged marshal (passed_events inputs);
        acknowledged = batches inputs;
        stage = end_of inputs;
      }
  unfolding serve process_lumberjack_batch
  serve-eq [] = refl
  serve-eq (batch c events ∷ rest) =
      rw (serve-eq rest, logged-passed_on c events (passed_events rest)) refl
  serve-eq (context_done ∷ rest) = refl

  -- Without a listener Start does nothing, with one the error of its server ends it; with a
  -- listener and no such error it posts
  -- one log event for each event that comes while the connection is attached, in their order, and
  -- acknowledges every batch, those of an unattached connection too, until the context ends.
  pub start-calls :
      (has_listener : Bool) (listened : Result (Unit {0})) (inputs : List (Input Event Tls))
      → ((has_listener ≡ false) × (start has_listener listened inputs ≡ nothing disabled))
        ⊎ ((has_listener ≡ true)
            × (is_ok listened ≡ false)
            × (start has_listener listened inputs ≡ nothing failed))
        ⊎ ((has_listener ≡ true)
            × (is_ok listened ≡ true)
            × (start has_listener listened inputs ≡ record {
              calls = logged marshal (passed_events inputs);
              acknowledged = batches inputs;
              stage = end_of inputs;
            }))
  unfolding start
  start-calls false listened inputs = inl (refl, refl)
  start-calls true (err e) inputs = inr (inl (refl, refl, refl))
  start-calls true (ok u) inputs = inr (inr (refl, refl, serve-eq inputs))
