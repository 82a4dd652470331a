-- ===== src/Config/Labels/Origin.antt =====
-- Where the value of each label comes from.
use salus_telemetry_envoy.Common.{
  ◌==◌, nat_eq, string_eq, texts_eq, [], ◌∷◌, String, if◌then◌else◌, Bool, true, false, arith, ◌≡◌,
  ◌⊎◌, inl, inr, refl, ap, ◌∙◌, Option, none, some, Bool-cases, Option-cases,
}
use text.Mathlib.TextLemmas.{append_assoc}
use text.Mathlib.TextEquality.{starts_with_iff}
use salus_telemetry_envoy.Common.Assoc.{lookup, insert, lookup-insert}
use salus_telemetry_envoy.Common.Result.{Result, ok, err, Error, ◌>>=◌}
use salus_telemetry_envoy.Config.Host.{
  System, discovered_label, get_bios_data, bios_labels, powershell,
}
use salus_telemetry_envoy.Config.Labels.{
  Labels, validate_user_label_name, insert_ok, insert_bios, discovered, add_configured,
  compute_labels,
}

-- The value of the last setting of k, if there is one.
abbrev pub configured_value : String → Labels → Option String → Option String
configured_value k [] d = d
configured_value k ((j, v) ∷ rest) d = configured_value k rest (if j == k then some v else d)

-- A discovered label's name is none that a user may configure.
pub validate-discovered_label : (s : String) → validate_user_label_name (discovered_label s) ≡ false
unfolding validate_user_label_name
validate-discovered_label s =
    rw ((starts_with_iff (discovered_label s) "discovered_").1 (s, append_assoc "discovered" "_" s))
      refl

lookup-add_configured :
    (cs m m' : Labels) (k : String)
    → add_configured cs m ≡ ok m'
    → lookup k m' ≡ configured_value k cs (lookup k m)
unfolding add_configured
lookup-add_configured [] m m' k h = cc
lookup-add_configured ((j, v) ∷ rest) m m' k h =
    ground (arith, lookup-add_configured rest (insert j v m) m' k, lookup-insert j k v m)

-- What a user may not configure is not set by the configured labels.
configured_value_invalid :
    (cs m m' : Labels) (k : String) (d : Option String)
    → add_configured cs m ≡ ok m'
    → validate_user_label_name k ≡ false
    → configured_value k cs d ≡ d
unfolding add_configured
configured_value_invalid [] m m' k d h n = refl
configured_value_invalid ((j, v) ∷ rest) m m' k d h n =
    ground (arith, configured_value_invalid rest (insert j v m) m' k d, string_eq.same_iff j k)

-- Every label found by the Envoy has a name that no user may configure.
record IsSystem (m : Labels) : Type 0 where
  at : (k : String) (v : String) → lookup k m ≡ some v → validate_user_label_name k ≡ false

insert-IsSystem :
    (k v : String) (m : Labels)
    → validate_user_label_name k ≡ false
    → IsSystem m
    → IsSystem (insert k v m)
insert-IsSystem k v m n d = record {
  at = λ j w h. ground (arith, lookup-insert k j v m, d.at j w, string_eq.same_iff k j);
}

nil-IsSystem : IsSystem []
unfolding lookup
nil-IsSystem = record { at = λ k v h. absurd (cc h) }

insert_ok-IsSystem :
    (k : String) (r : Result String) (m : Labels)
    → validate_user_label_name k ≡ false
    → IsSystem m
    → IsSystem (insert_ok k r m)
insert_ok-IsSystem k (ok v) m n d = insert-IsSystem k v m n d
insert_ok-IsSystem k (err e) m n d = d

-- What a bios query gives sets system labels only.
abbrev OnlySystem : Result Labels → Type 0
OnlySystem r = (m : Labels) → IsSystem m → IsSystem (insert_bios r m)

bios_labels-OnlySystem : (a b : String) → OnlySystem (ok (bios_labels a b))
unfolding insert
bios_labels-OnlySystem a b m d =
    insert-IsSystem _ b _ (validate-discovered_label "bios_version")
      (insert-IsSystem _ a m (validate-discovered_label "bios_vendor") d)

if-OnlySystem :
    (b : Bool) (r q : Result Labels) → OnlySystem r → OnlySystem q → OnlySystem (if b then r else q)
if-OnlySystem true r q h k = h
if-OnlySystem false r q h k = k

bios_query-OnlySystem :
    (a b : Result String) (f : String → String)
    → OnlySystem (a >>= λ v. b >>= λ w. ok (bios_labels (f v) (f w)))
bios_query-OnlySystem (err e) b f = λ m d. d
bios_query-OnlySystem (ok v) (err e) f = λ m d. d
bios_query-OnlySystem (ok v) (ok w) f = bios_labels-OnlySystem (f v) (f w)

get_bios_data-OnlySystem : (sys : System) → OnlySystem (get_bios_data sys)
unfolding get_bios_data
get_bios_data-OnlySystem sys =
    if-OnlySystem (sys.goos == "linux") _ _
      (bios_query-OnlySystem (sys.output ("dmidecode" ∷ "-s" ∷ "bios-vendor" ∷ []))
        (sys.output ("dmidecode" ∷ "-s" ∷ "bios-version" ∷ [])) sys.tidy)
      (if-OnlySystem (sys.goos == "windows") _ _
        (bios_query-OnlySystem (sys.output (powershell "(Get-WmiObject win32_bios).Manufacturer"))
          (sys.output (powershell "(Get-WmiObject win32_bios).SMBIOSBIOSVersion")) sys.tidy)
        (λ m d. d))

discovered-IsSystem : (sys : System) (hostname : String) → IsSystem (discovered sys hostname)
unfolding discovered
discovered-IsSystem sys hostname = get_bios_data-OnlySystem sys _ (
    insert_ok-IsSystem _ _ _ (validate-discovered_label "serial") (
      insert_ok-IsSystem _ _ _ (validate-discovered_label "xen_id") (
        insert-IsSystem _ _ _ (validate-discovered_label "hostname") (
          insert-IsSystem _ _ _ (validate-discovered_label "arch")
            (insert-IsSystem _ _ _ (validate-discovered_label "os") nil-IsSystem)))))

compute_labels-inv :
    (sys : System) (configured m : Labels)
    → compute_labels sys configured ≡ ok m
    → (hostname : String) × (sys.hostname ≡ ok hostname)
      × (add_configured configured (discovered sys hostname) ≡ ok m)
unfolding compute_labels
compute_labels-inv sys configured m = elim (hostname_cases sys.hostname) [
  | inl (s, e) ↦ rw e (λ h. (s, refl, h))
  | inr (x, e) ↦ rw e (λ h. absurd (cc h))
]
  where
    hostname_cases : (r : Result String) → ((s : String) × (r ≡ ok s)) ⊎ ((e : Error) × (r ≡ err e))
    hostname_cases (ok s) = inl (s, refl)
    hostname_cases (err e) = inr (e, refl)

lookup_user :
    (m : Labels) (k : String) → IsSystem m → validate_user_label_name k ≡ true → lookup k m ≡ none
lookup_user m k d u = elim (Option-cases (lookup k m)) [
  | inl e ↦ e
  | inr (v, e) ↦ absurd (cc (d.at k v e))
]

-- When ComputeLabels succeeds, a label whose name a user may configure has the value of its last
-- configuration, or is absent; and a label with a system prefix has the value that the Envoy
-- discovered, whatever is configured.
pub lookup-compute_labels :
    (sys : System) (configured m : Labels) (k : String)
    → compute_labels sys configured ≡ ok m
    → (hostname : String) × (sys.hostname ≡ ok hostname)
      × (lookup k m ≡ (
          if validate_user_label_name k
          then configured_value k configured none
          else lookup k (discovered sys hostname)))
lookup-compute_labels sys configured m k h =
    let (s, e, a) = compute_labels-inv sys configured m h in (s, e, by_name s a)
  where
    by_name :
        (s : String)
        → add_configured configured (discovered sys s) ≡ ok m
        → lookup k m ≡ (
            if validate_user_label_name k
            then configured_value k configured none
            else lookup k (discovered sys s))
    by_name s a = elim (Bool-cases (validate_user_label_name k)) [
      | inl u ↦ rw u (
          lookup-add_configured configured _ m k a
          ∙ ap (configured_value k configured) (lookup_user _ k (discovered-IsSystem sys s) u))
      | inr u ↦ rw u (
          lookup-add_configured configured _ m k a
          ∙ configured_value_invalid configured _ m k _ a u)
    ]

add_configured_conflict :
    (cs m : Labels) (k v : String)
    → lookup k cs ≡ some v
    → validate_user_label_name k ≡ false
    → (e : Error) × (add_configured cs m ≡ err e)
unfolding add_configured lookup
add_configured_conflict [] m k v h n = absurd (cc h)
add_configured_conflict ((j, w) ∷ rest) m k v h n = elim (Bool-cases (validate_user_label_name j)) [
  | inl u ↦
      let other : (j == k) ≡ false = ground (arith, string_eq.same_iff j k) in
      rw u (add_configured_conflict rest (insert j w m) k v (rw other at h) n)
  | inr u ↦ rw u (_, refl)
]

-- A configuration that names a label that the Envoy discovers is refused: no configured value ever
-- replaces a discovered one.
pub compute_labels_conflict :
    (sys : System) (configured : Labels) (hostname s v : String)
    → sys.hostname ≡ ok hostname
    → lookup (discovered_label s) configured ≡ some v
    → (e : Error) × (compute_labels sys configured ≡ err e)
unfolding compute_labels
compute_labels_conflict sys configured hostname s v h c =
    rw h (add_configured_conflict configured _ _ v c (validate-discovered_label s))
