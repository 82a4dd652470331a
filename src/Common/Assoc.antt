-- ===== src/Common/Assoc.antt =====
-- Go's maps as association lists. A map's iteration order is not specified in Go: it is the list's
-- order here, and what does not depend on it is stated through `lookup`.
use mathlib.Core.Path.{◌≡◌, refl}
use mathlib.Core.Option.{Option, none, some}
use mathlib.Core.List.{List, [], ◌∷◌}
use native.Mathlib.Omega.{arith}
use salus_telemetry_envoy.Common.Tests.{if◌then◌else◌}
use salus_telemetry_envoy.Common.Keys.{Key, ◌==◌}

abbrev pub Assoc {ℓ κ} : Type ℓ → Type κ → Type (ℓ ⊔ κ)
Assoc K V = List (K × V)

module _ {ℓ κ} {K : Type ℓ} {V : Type κ} ⦃e : Key K⦄ where
  -- m[key], with whether it is there
  unfoldable pub lookup : K → Assoc K V → Option V
  lookup key [] = none
  lookup key ((own, val) ∷ more) =
      let later = lookup key more in if own == key then some val else later

  -- delete(m, key)
  unfoldable pub erase : K → Assoc K V → Assoc K V
  erase k [] = []
  erase k ((j, w) ∷ m) = let rest = erase k m in if j == k then rest else (j, w) ∷ rest

  -- m[key] = new
  unfoldable pub insert : K → V → Assoc K V → Assoc K V
  insert key new [] = (key, new) ∷ []
  insert key new ((own, val) ∷ more) =
      let later = (own, val) ∷ insert key new more in
      if own == key then (own, new) ∷ more else later

  pub lookup-insert :
      (key other : K) (new : V) (m : Assoc K V)
      → lookup other (insert key new m) ≡ (if key == other then some new else lookup other m)
  unfolding lookup insert
  lookup-insert key other new [] = refl
  lookup-insert key other new ((own, val) ∷ more) = ground (
    arith,
    lookup-insert key other new more,
    e.same_iff own key,
    e.same_iff own other,
    e.same_iff key other,
  )

  pub lookup-erase :
      (k j : K) (m : Assoc K V) → lookup j (erase k m) ≡ (if k == j then none else lookup j m)
  unfolding lookup erase
  lookup-erase k j [] = ground arith
  lookup-erase k j ((i, w) ∷ m) =
      ground (arith, e.same_iff k j, e.same_iff i k, e.same_iff i j, lookup-erase k j m)
