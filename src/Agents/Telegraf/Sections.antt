-- ===== src/Agents/Telegraf/Sections.antt =====
-- The page of telegraf's configurations and the order in which Go's map iteration visits them,
-- which agents/telegraf.go does not fix.
use salus_telemetry_envoy.Common.{
  nat_eq, string_eq, texts_eq, ◌++◌, List, [], ◌∷◌, map, String, if◌then◌else◌, Bool, true, false,
  leb, ◌==◌, ◌<◌, ◌≤◌, take, drop, Option, none, some, arith, ◌≡◌, inl, inr, refl, sym, ap, ◌∙◌,
  ◌&&◌, ℕ, length, Bool-cases,
}
use mathlib.Core.List.{Perm, append_assoc, append-nil}
use mathlib.Core.List.Perm
use mathlib.Core.List.Permᴰ.{Permᴰ, nil, cons, swap, trans}
use mathlib.Core.Logic.{∥∥₁_elim}
use mathlib.Core.Bool.{Bool-set}
use salus_telemetry_envoy.Agents.Files.{Run, returned, panicked}
use salus_telemetry_envoy.Agents.Telegraf.{
  Configs, Memory, bytes_beq, has_header, fits, body_of, concat_bodies, concat_configs,
  inputs_header,
}

-- What follows a prefix, if a text starts with it.
abbrev pub after_prefix : List ℕ → List ℕ → Option (List ℕ)
after_prefix [] v = some v
after_prefix (a ∷ p) [] = none
after_prefix (a ∷ p) (b ∷ v) = let rest = after_prefix p v in if a == b then rest else none

-- What a configuration contributes: all of it but a header that it starts with.
abbrev pub section_of : List ℕ → List ℕ
section_of v = elim (after_prefix inputs_header v) [ none ↦ v | some rest ↦ rest ]

abbrev pub sections : Configs → List (List ℕ)
sections m = map (λ (e : String × List ℕ). section_of e.1) m

-- Whether no configuration is too short for the test of its header.
abbrev pub entry_fits : Memory → String × List ℕ → Bool
entry_fits beyond e = fits (beyond e.0) e.1

abbrev pub all_fit : Memory → Configs → Bool
all_fit beyond [] = true
all_fit beyond (e ∷ rest) = entry_fits beyond e && all_fit beyond rest

abbrev pub joined : List (List ℕ) → List ℕ
joined [] = []
joined (s ∷ rest) = s ++ joined rest

-- The main configuration, the header of the inputs, and sections; or a panic.
abbrev pub page : List ℕ → Bool → List (List ℕ) → Run (List ℕ)
page main fit xs = if fit then returned ((main ++ inputs_header) ++ joined xs) else panicked

after_prefix-long :
    (p v b : List ℕ)
    → length p ≤ length v
    → after_prefix p v
      ≡ (if bytes_beq p (take (length p) (v ++ b)) then some (drop (length p) v) else none)
after_prefix-long [] v b h = refl
after_prefix-long (a ∷ p) [] b h = absurd (omega (arith, h))
after_prefix-long (a ∷ p) (c ∷ v) b h = ground (arith, after_prefix-long p v b (omega (arith, h)))

after_prefix-short : (p v : List ℕ) → length v < length p → after_prefix p v ≡ none
after_prefix-short [] v h = absurd (omega (arith, h))
after_prefix-short (a ∷ p) [] h = refl
after_prefix-short (a ∷ p) (c ∷ v) h = ground (arith, after_prefix-short p v (omega (arith, h)))

body_of-section_of : (b v : List ℕ) → fits b v ≡ true → body_of b v ≡ section_of v
body_of-section_of b v f = elim (Bool-cases (leb 8 (length v))) [
  | inl e ↦
      rw (after_prefix-long inputs_header v b (ground (arith, e))) (by_header (has_header b v))
  | inr e ↦ rw (after_prefix-short inputs_header v (ground (arith, e))) (rw (no_header e) refl)
]
  where
    by_header :
        (x : Bool)
        → (if x then drop 8 v else v)
          ≡ elim (if x then some (drop 8 v) else none) [ none ↦ v | some rest ↦ rest ]
    by_header true = refl
    by_header false = refl

    no_header : leb 8 (length v) ≡ false → has_header b v ≡ false
    no_header e = ground (arith, f, e)

concat_bodies-page :
    (beyond : Memory) (acc : List ℕ) (m : Configs)
    → concat_bodies beyond acc m
      ≡ (if all_fit beyond m then returned (acc ++ joined (sections m)) else panicked)
unfolding concat_bodies
concat_bodies-page beyond acc [] = ap returned (sym (append-nil acc))
concat_bodies-page beyond acc ((id, v) ∷ rest) = elim (Bool-cases (fits (beyond id) v)) [
  | inl e ↦
      rw
        (
          e,
          body_of-section_of (beyond id) v e,
          concat_bodies-page beyond (acc ++ section_of v) rest,
          append_assoc acc (section_of v) (joined (sections rest)),
        )
        refl
  | inr e ↦ rw e refl
]

concat_configs-page :
    (beyond : Memory) (main : List ℕ) (m : Configs)
    → concat_configs beyond main m ≡ page main (all_fit beyond m) (sections m)
unfolding concat_configs
concat_configs-page beyond main m = concat_bodies-page beyond (main ++ inputs_header) m

and_swap : (x y z : Bool) → (x && (y && z)) ≡ (y && (x && z))
and_swap x y z = ground arith

all_fit-Permᴰ : (beyond : Memory) {m n : Configs} → Permᴰ m n → all_fit beyond m ≡ all_fit beyond n
all_fit-Permᴰ beyond nil = refl
all_fit-Permᴰ beyond (cons {b = b} {l₁ = l} e p) =
    ap (λ c. entry_fits beyond c && all_fit beyond l) e
    ∙ ap (λ x. entry_fits beyond b && x) (all_fit-Permᴰ beyond p)
all_fit-Permᴰ beyond (swap {a = a} {b = b} {a' = a'} {l = l} e f) =
    and_swap (entry_fits beyond a) (entry_fits beyond b) (all_fit beyond l)
    ∙ ap (λ c. entry_fits beyond c && (entry_fits beyond a && all_fit beyond l)) f
    ∙ ap (λ c. entry_fits beyond a' && (entry_fits beyond c && all_fit beyond l)) e
all_fit-Permᴰ beyond (trans p q) = all_fit-Permᴰ beyond p ∙ all_fit-Permᴰ beyond q

-- Whatever order Go's map iteration takes, concatConfigs panics for the same configurations, those
-- of which one is too short for the test of its header, and otherwise gives the main configuration,
-- the header, and the configurations without a header at their start, in that order.
pub concat_configs-Perm :
    (beyond : Memory) (main : List ℕ) (m n : Configs)
    → Perm m n
    → (concat_configs beyond main m ≡ page main (all_fit beyond m) (sections m))
      × (concat_configs beyond main n ≡ page main (all_fit beyond m) (sections n))
      × Perm (sections m) (sections n)
concat_configs-Perm beyond main m n p =
    let same =
      ∥∥₁_elim p (Bool-set (all_fit beyond n) (all_fit beyond m))
        (λ d. sym (all_fit-Permᴰ beyond d)) in
    (
      concat_configs-page beyond main m,
      concat_configs-page beyond main n ∙ ap (λ b. page main b (sections n)) same,
      Perm.map (λ (e : String × List ℕ). section_of e.1) p,
    )
