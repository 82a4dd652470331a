-- ===== src/Paths/Plain.antt =====
-- Names of one component: what an operation's id is expected to be.
use Prim.Native.Char.{code}
use salus_telemetry_envoy.Common.{
  ◌==◌, nat_eq, string_eq, texts_eq, ◌++◌, [], ◌∷◌, String, Bool, true, false, nat_beq, arith, ◌≡◌,
  refl, not, ◌||◌,
}
use salus_telemetry_envoy.Paths.{FilePath, components, join}

unfoldable pub has_slash : String → Bool
has_slash String.[] = false
has_slash (String.◌∷◌ c s) = nat_beq (code c) b'/' || has_slash s

unfoldable pub is_plain : String → Bool
unfolding has_slash
is_plain s = not (has_slash s || s == "" || s == "." || s == "..")

components_of_no_slash : (s : String) → has_slash s ≡ false → components s ≡ s ∷ []
unfolding has_slash components
components_of_no_slash String.[] h = refl
components_of_no_slash (String.◌∷◌ c s) h = ground (arith, components_of_no_slash s)

pub join-is_plain : (p : FilePath) (s : String) → is_plain s ≡ true → join p s ≡ p ++ s ∷ []
unfolding is_plain join
join-is_plain p s h = ground (arith, components_of_no_slash s)
