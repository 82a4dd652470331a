-- ===== src/Ingest/Pipe/Progress.antt =====
-- Whatever a connection sends can still be posted, for as long as Start has not returned.
use salus_telemetry_envoy.Common.{
  nat_eq, string_eq, texts_eq, eq_self, List, [], ◌∷◌, false, ◌≡◌, refl, sym, ◌∙◌, ℕ, ◌<◌, length,
}
use mathlib.Core.List.{append-nil}
use salus_telemetry_envoy.Ingest.Pipe.{
  Pipe, started, send, take_metric, sends, takes, Reach, here, next,
}
use salus_telemetry_envoy.Ingest.Pipe.Delivery.{of_connection, IsInOrder, started-IsInOrder}

module _ {M : Type 0} (capacity : ℕ) where
  Reach-trans : {s t u : Pipe M} → Reach capacity s t → Reach capacity t u → Reach capacity s u
  Reach-trans r here = r
  Reach-trans r (next q st) = next (Reach-trans r q) st

  record CanDrain (s : Pipe M) : Type 0 where
    target : Pipe M
    reach : Reach capacity s target
    empty : target.metrics ≡ []
    running : target.stopped ≡ false
    same_pending : target.pending ≡ s.pending

  can_drain : (ms : List (ℕ × M)) (s : Pipe M) → s.metrics ≡ ms → s.stopped ≡ false → CanDrain s
  unfolding take_metric
  can_drain [] s e n = record {
    target = s;
    reach = here;
    empty = e;
    running = n;
    same_pending = refl;
  }
  can_drain (x ∷ rest) s e n =
      let d = can_drain rest (take_metric x rest s) refl n in
      record {
        target = d.target;
        reach = Reach-trans (next here (takes x rest n e)) d.reach;
        empty = d.empty;
        running = d.running;
        same_pending = d.same_pending;
      }

  -- The i-th connection has sent everything, and the channel is empty.
  record CanFinish (i : ℕ) (s : Pipe M) : Type 0 where
    target : Pipe M
    reach : Reach capacity s target
    empty : target.metrics ≡ []
    sent : target.pending i ≡ []

  can_finish :
      (i : ℕ) (ms : List M) (s : Pipe M)
      → 0 < capacity
      → s.pending i ≡ ms
      → s.metrics ≡ []
      → s.stopped ≡ false
      → CanFinish i s
  unfolding send take_metric
  can_finish i [] s c p e n = record { target = s; reach = here; empty = e; sent = p }
  can_finish i (m ∷ rest) s c p e n =
      let s1 = send i m rest s in
      let s2 = take_metric (i, m) [] s1 in
      let f = can_finish i rest s2 c (rw (eq_self i) refl) refl n in
      let room : length s.metrics < capacity = rw e c in
      let one : s1.metrics ≡ (i, m) ∷ [] = rw e refl in
      record {
        target = f.target;
        reach =
            Reach-trans (next (next here (sends i m rest p room)) (takes (i, m) [] n one)) f.reach;
        empty = f.empty;
        sent = f.sent;
      }

  all_posted :
      (all : List M) (i : ℕ) (t : Pipe M)
      → IsInOrder capacity all i t
      → t.metrics ≡ []
      → t.pending i ≡ []
      → of_connection i t.posted ≡ all
  all_posted all i t o e p = sym (append-nil (of_connection i t.posted)) ∙ (rw (e, p) at (o.order))

  pub can_deliver :
      (all : ℕ → List M) (i : ℕ) (s : Pipe M)
      → 0 < capacity
      → Reach capacity (started all) s
      → s.stopped ≡ false
      → (t : Pipe M) × Reach capacity s t × (of_connection i t.posted ≡ all i)
  can_deliver all i s c r n =
      let d = can_drain s.metrics s refl n in
      let f = can_finish i (d.target.pending i) d.target c refl d.empty d.running in
      let q = Reach-trans d.reach f.reach in
      let o = started-IsInOrder capacity all i f.target (Reach-trans r q) in
      (f.target, q, all_posted (all i) i f.target o f.empty f.sent)
