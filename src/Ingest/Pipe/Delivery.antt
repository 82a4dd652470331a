-- ===== src/Ingest/Pipe/Delivery.antt =====
-- Metrics pass the channel in order, and none is lost or doubled.
use salus_telemetry_envoy.Common.{
  ◌==◌, nat_eq, string_eq, texts_eq, ◌++◌, List, [], ◌∷◌, if◌then◌else◌, arith, ◌≡◌, inl, inr, refl,
  sym, ap, ◌∙◌, ℕ, ◌≤◌, length, length-append, Bool-cases,
}
use mathlib.Core.List.{append-nil, append_assoc}
use salus_telemetry_envoy.Ingest.Pipe.{
  Pipe, set_pending, started, send, take_metric, Step, sends, takes, stops, Reach, here, next,
}

module _ {M : Type 0} where
  -- The metrics of the i-th connection.
  abbrev pub of_connection : ℕ → List (ℕ × M) → List M
  of_connection i [] = []
  of_connection i ((j, m) ∷ rest) = let ms = of_connection i rest in if j == i then m ∷ ms else ms

  of_connection-append :
      (i : ℕ) (xs ys : List (ℕ × M))
      → of_connection i (xs ++ ys) ≡ of_connection i xs ++ of_connection i ys
  of_connection-append i [] ys = refl
  of_connection-append i ((j, m) ∷ xs) ys = elim (Bool-cases (j == i)) [
    | inl e ↦ rw (e, of_connection-append i xs ys) refl
    | inr e ↦ rw (e, of_connection-append i xs ys) refl
  ]

  -- A metric that is taken moves from the channel to the posts.
  take-order :
      (i : ℕ) (ps rest : List (ℕ × M)) (x : ℕ × M) (pending : List M)
      → of_connection i (ps ++ x ∷ []) ++ (of_connection i rest ++ pending)
        ≡ of_connection i ps ++ (of_connection i (x ∷ rest) ++ pending)
  take-order i ps rest (j, m) pending = elim (Bool-cases (j == i)) [
    | inl e ↦
        rw (of_connection-append i ps ((j, m) ∷ []), e)
          (append_assoc (of_connection i ps) (m ∷ []) _)
    | inr e ↦ rw (of_connection-append i ps ((j, m) ∷ []), e, append-nil) refl
  ]

  -- A metric that is sent moves from its connection to the channel.
  send-order :
      (i j : ℕ) (ms : List (ℕ × M)) (m : M) (rest : List M) (pending : ℕ → List M)
      → pending j ≡ m ∷ rest
      → of_connection i (ms ++ (j, m) ∷ []) ++ set_pending j rest pending i
        ≡ of_connection i ms ++ pending i
  send-order i j ms m rest pending h = elim (Bool-cases (j == i)) [
    | inl e ↦
        let e' : j ≡ i = (nat_eq.same_iff j i).0 e in
        let h' : pending i ≡ m ∷ rest = ap pending (sym e') ∙ h in
        rw (of_connection-append i ms ((j, m) ∷ []), e, h')
          (append_assoc (of_connection i ms) (m ∷ []) rest)
    | inr e ↦ rw (of_connection-append i ms ((j, m) ∷ []), e, append-nil) refl
  ]

  -- What a connection sends is posted, in the channel or pending, in this order.
  pub record IsInOrder (capacity : ℕ) (all : List M) (i : ℕ) (s : Pipe M) : Type 0 where
    pub order : of_connection i s.posted ++ (of_connection i s.metrics ++ s.pending i) ≡ all
    pub bounded : length s.metrics ≤ capacity

  Step-IsInOrder :
      {capacity : ℕ} {s t : Pipe M} (all : List M) (i : ℕ)
      → Step capacity s t
      → IsInOrder capacity all i s
      → IsInOrder capacity all i t
  unfolding send take_metric
  Step-IsInOrder {s = s} all i (sends j m rest p l) o = record {
    order =
        ap (λ l. of_connection i s.posted ++ l) (send-order i j s.metrics m rest s.pending p)
        ∙ o.order;
    bounded = rw (length-append s.metrics ((j, m) ∷ [])) (omega arith);
  }
  Step-IsInOrder {s = s} all i (takes x rest n q) o = record {
    order =
        take-order i s.posted rest x (s.pending i)
        ∙ ap (λ l. of_connection i s.posted ++ (of_connection i l ++ s.pending i)) (sym q)
        ∙ o.order;
    bounded = let b = o.bounded in let q' = ap length q in omega arith;
  }
  Step-IsInOrder all i stops o = record { order = o.order; bounded = o.bounded }

  Reach-IsInOrder :
      {capacity : ℕ} {s t : Pipe M} (all : List M) (i : ℕ)
      → IsInOrder capacity all i s
      → Reach capacity s t
      → IsInOrder capacity all i t
  Reach-IsInOrder all i o here = o
  Reach-IsInOrder all i o (next r st) = Step-IsInOrder all i st (Reach-IsInOrder all i o r)

  pub started-IsInOrder :
      (capacity : ℕ) (all : ℕ → List M) (i : ℕ) (s : Pipe M)
      → Reach capacity (started all) s
      → IsInOrder capacity (all i) i s
  started-IsInOrder capacity all i s r =
      Reach-IsInOrder (all i) i (record { order = refl; bounded = omega arith }) r
