-- ===== src/Ingest/Pipe.antt =====
-- What ingest/lineproto.go and ingest/telegraf_json.go share: a goroutine for each connection sends
-- its metrics to a bounded channel, and the loop of Start takes them from it and posts them.
pub mod Delivery
pub mod Progress
use salus_telemetry_envoy.Common.{
  ◌==◌, nat_eq, ◌++◌, List, [], ◌∷◌, if◌then◌else◌, Bool, true, false, ◌≡◌, ℕ, ◌<◌, length,
}

-- `M` is what the channel carries.
pub record Pipe (M : Type 0) : Type 0 where
  -- what the handler of each connection has still to send
  pub pending : ℕ → List M
  -- the channel; a metric has the number of its connection with it
  pub metrics : List (ℕ × M)
  -- the metrics that Start has given to the egress connection
  pub posted : List (ℕ × M)
  -- Start has returned
  pub stopped : Bool

module _ {M : Type 0} where
  abbrev pub set_pending : ℕ → List M → (ℕ → List M) → ℕ → List M
  set_pending i ms f j = if i == j then ms else f j

  -- Start after it made the channel, with all that each connection will send.
  abbrev pub started : (ℕ → List M) → Pipe M
  started all = record { pending = all; metrics = []; posted = []; stopped = false }

  -- handleConnection's send
  unfoldable pub send : ℕ → M → List M → Pipe M → Pipe M
  send i m rest s = record s {
    pending = set_pending i rest s.pending;
    metrics = s.metrics ++ (i, m) ∷ [];
  }

  -- a turn of Start's loop
  unfoldable pub take_metric : ℕ × M → List (ℕ × M) → Pipe M → Pipe M
  take_metric x rest s = record s { metrics = rest; posted = s.posted ++ x ∷ [] }

  -- A send waits while the channel is full, and the loop while it is empty.
  pub data Step (capacity : ℕ) (s : Pipe M) : Pipe M → Type 0 where
    sends :
        (i : ℕ) (m : M) (rest : List M)
        → s.pending i ≡ m ∷ rest
        → length s.metrics < capacity
        → Step capacity s (send i m rest s)
    takes :
        (x : ℕ × M) (rest : List (ℕ × M))
        → s.stopped ≡ false
        → s.metrics ≡ x ∷ rest
        → Step capacity s (take_metric x rest s)
    stops : Step capacity s (record s { stopped = true })

  pub data Reach (capacity : ℕ) (s : Pipe M) : Pipe M → Type 0 where
    here : Reach capacity s s
    next : {t u : Pipe M} → Reach capacity s t → Step capacity t u → Reach capacity s u
