-- ===== src/Common/Lists.antt =====
-- Lists measured and indexed by native numbers, under the library's names.
use Prim.Native.Nat.{ℕ, zero, suc, ◌+◌, ◌≤◌, ◌<◌}
use mathlib.Core.Path.{◌≡◌, refl}
use mathlib.Core.Logic.{◌≢◌, ◌⊎◌, inl, inr}
use mathlib.Core.List.{List, [], ◌∷◌, ◌++◌}
use mathlib.Core.Option.{Option, none, some}
use native.Mathlib.Omega.{arith}

module _ {ℓ} {A : Type ℓ} where
  abbrev pub length : List A → ℕ
  length [] = 0
  length (x ∷ xs) = suc (length xs)

  abbrev pub drop : ℕ → List A → List A
  drop zero xs = xs
  drop (suc n) [] = []
  drop (suc n) (x ∷ xs) = drop n xs

  abbrev pub take : ℕ → List A → List A
  take zero xs = []
  take (suc n) [] = []
  take (suc n) (x ∷ xs) = x ∷ take n xs

  abbrev pub get_elem? : List A → ℕ → Option A
  get_elem? [] i = none
  get_elem? (x ∷ xs) zero = some x
  get_elem? (x ∷ xs) (suc i) = get_elem? xs i

  abbrev pub set : List A → ℕ → A → List A
  set [] i v = []
  set (x ∷ xs) zero v = v ∷ xs
  set (x ∷ xs) (suc i) v = x ∷ set xs i v

  pub length-append : (xs ys : List A) → length (xs ++ ys) ≡ length xs + length ys
  length-append [] ys = omega arith
  length-append (x ∷ xs) ys = omega (arith, length-append xs ys)

  pub drop-eq_nil : (n : ℕ) (xs : List A) → length xs ≤ n → drop n xs ≡ []
  drop-eq_nil zero [] h = refl
  drop-eq_nil zero (x ∷ xs) h = absurd (omega arith)
  drop-eq_nil (suc n) [] h = refl
  drop-eq_nil (suc n) (x ∷ xs) h = drop-eq_nil n xs (omega arith)

  pub drop-ne_nil : (n : ℕ) (xs : List A) → n < length xs → drop n xs ≢ []
  drop-ne_nil zero [] h = absurd (omega arith)
  drop-ne_nil zero (x ∷ xs) h = λ e. cc e
  drop-ne_nil (suc n) [] h = absurd (omega arith)
  drop-ne_nil (suc n) (x ∷ xs) h = drop-ne_nil n xs (omega arith)

  -- What a read gives after a write, and after an append.
  pub get_elem?-set :
      (xs : List A) (i j : ℕ) (v c : A)
      → get_elem? (set xs i v) j ≡ some c
      → (i ≡ j) × (c ≡ v) ⊎ (i ≢ j) × (get_elem? xs j ≡ some c)
  get_elem?-set [] i j v c h = cc
  get_elem?-set (x ∷ xs) zero zero v c h = inl (refl, cc)
  get_elem?-set (x ∷ xs) zero (suc j) v c h = inr ((λ e. omega arith), h)
  get_elem?-set (x ∷ xs) (suc i) zero v c h = inr ((λ e. omega arith), h)
  get_elem?-set (x ∷ xs) (suc i) (suc j) v c h = elim (get_elem?-set xs i j v c h) [
    | inl (e, q) ↦ inl (omega arith, q)
    | inr (n, q) ↦ inr ((λ e. n (omega arith)), q)
  ]

  pub get_elem?-snoc :
      (xs : List A) (x : A) (j : ℕ) (c : A)
      → get_elem? (xs ++ x ∷ []) j ≡ some c
      → (j ≡ length xs) × (c ≡ x) ⊎ (get_elem? xs j ≡ some c)
  get_elem?-snoc [] x zero c h = inl (refl, cc)
  get_elem?-snoc [] x (suc j) c h = cc
  get_elem?-snoc (y ∷ xs) x zero c h = inr h
  get_elem?-snoc (y ∷ xs) x (suc j) c h = elim (get_elem?-snoc xs x j c h) [
    | inl (e, q) ↦ inl (omega arith, q)
    | inr q ↦ inr q
  ]

  pub get_elem?-length : (xs : List A) (x : A) → get_elem? (xs ++ x ∷ []) (length xs) ≡ some x
  get_elem?-length [] x = refl
  get_elem?-length (y ∷ xs) x = get_elem?-length xs x

  pub get_elem?-set_self :
      (xs : List A) (i : ℕ) (v c : A) → get_elem? xs i ≡ some c → get_elem? (set xs i v) i ≡ some v
  get_elem?-set_self [] i v c h = cc
  get_elem?-set_self (x ∷ xs) zero v c h = refl
  get_elem?-set_self (x ∷ xs) (suc i) v c h = get_elem?-set_self xs i v c h
