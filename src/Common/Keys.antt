-- ===== src/Common/Keys.antt =====
-- Types with a decidable equality test, as Go's `==` on map keys.
use Prim.Native.Nat.{ℕ}
use Prim.Native.String.{String}
use mathlib.Core.Path.{◌≡◌, refl}
use mathlib.Core.Logic.{◌↔◌}
use mathlib.Core.Bool.{Bool, true, false, ◌&&◌}
use mathlib.Core.List.{List, [], ◌∷◌}
use native.Mathlib.Omega.{arith}
use text.Mathlib.Text.{◌==◌ as str_eq}
use text.Mathlib.TextEquality.{eq_iff}
use salus_telemetry_envoy.Common.Tests.{nat_beq, nat_beq_iff}

-- What Go's `==` decides at a type.
pub record Key {ℓ} (K : Type ℓ) : Type ℓ where
  pub same : K → K → Bool
  pub same_iff : (j k : K) → (same j k ≡ true) ↔ (j ≡ k)

infix 50 ◌==◌
abbrev pub ◌==◌ {ℓ} : {K : Type ℓ} ⦃key : Key K⦄ → K → K → Bool
◌==◌ ⦃key⦄ j k = key.same j k

instance abbrev pub string_eq : Key String
string_eq = record { same = λ s t. str_eq s t; same_iff = λ s t. eq_iff s t }

instance abbrev pub nat_eq : Key ℕ
nat_eq = record { same = λ m n. nat_beq m n; same_iff = λ m n. nat_beq_iff m n }

pub eq_self {ℓ} : {A : Type ℓ} ⦃e : Key A⦄ (a : A) → (a == a) ≡ true
eq_self ⦃e⦄ a = (e.same_iff a a).1 refl

-- Lists of texts are compared item by item.
abbrev pub texts_beq : List String → List String → Bool
texts_beq [] [] = true
texts_beq (x ∷ xs) (y ∷ ys) = str_eq x y && texts_beq xs ys
texts_beq _ _ = false

pub texts_beq_iff : (xs ys : List String) → (texts_beq xs ys ≡ true) ↔ (xs ≡ ys)
texts_beq_iff [] [] = ground arith
texts_beq_iff [] (y ∷ ys) = ground arith
texts_beq_iff (x ∷ xs) [] = ground arith
texts_beq_iff (x ∷ xs) (y ∷ ys) = ground (arith, eq_iff x y, texts_beq_iff xs ys)

instance abbrev pub texts_eq : Key (List String)
texts_eq = record { same = texts_beq; same_iff = texts_beq_iff }
