-- ===== src/Agents/Capabilities.antt =====
-- agents/capabilities.go and its use in PostInstall of agents/telegraf.go. The capability library
-- is a record of parameters.
use salus_telemetry_envoy.Common.{
  nat_eq, string_eq, texts_eq, ◌++◌, [], ◌∷◌, ◌≡◌, ◌≢◌, ◌⊎◌, inl, inr, refl, ap, Option, none, some,
}
use salus_telemetry_envoy.Common.Result.{
  Result, ok, err, Error, wrap_err, ◌>>=◌, bind-ok, wrap_err-ok,
}
use salus_telemetry_envoy.Paths.{FilePath}
use salus_telemetry_envoy.Agents.Runner.{telegraf_runner, post_install}

-- The library: a file's capabilities, and whether a call on them works.
pub record Capability : Type 1 where
  pub Caps : Type 0
  pub new_file : FilePath → Result Caps
  pub load_caps : Caps → Result Caps
  pub set_net_raw : Caps → Caps
  pub apply : Caps → Result (Unit {0})

module _ (lib : Capability) where
  open lib use {Caps, new_file, load_caps, set_net_raw, apply}

  unfoldable pub add_net_raw_capabilities : FilePath → Result (Unit {0})
  add_net_raw_capabilities exe_path = do
    c ← wrap_err "failed to open exe" (new_file exe_path)
    loaded ← wrap_err "failed to load capabilities" (load_caps c)
    wrap_err "failed to apply capabilities" (apply (set_net_raw loaded))

  abbrev pub warning : Result (Unit {0}) → Option Error
  warning (ok _) = none
  warning (err e) = some e

  -- PostInstall of telegraf, with the error of its warning.
  unfoldable pub telegraf_post_install : FilePath → Result (Unit {0}) × Option Error
  unfolding add_net_raw_capabilities
  telegraf_post_install agent_version_path =
      (ok tt, warning (add_net_raw_capabilities (agent_version_path ++ "bin" ∷ "telegraf" ∷ [])))

  -- The file has been given the capability.
  abbrev pub HasNetRaw : FilePath → Type 0
  HasNetRaw path =
      (c : Caps) × (new_file path ≡ ok c)
      × ((d : Caps) × (load_caps c ≡ ok d) × (apply (set_net_raw d) ≡ ok tt))

  add_net_raw_capabilities-HasNetRaw :
      (path : FilePath) → add_net_raw_capabilities path ≡ ok tt → HasNetRaw path
  unfolding add_net_raw_capabilities
  add_net_raw_capabilities-HasNetRaw path h =
      let (c, opened, then_load) = bind-ok (wrap_err "failed to open exe" (new_file path)) _ tt h in
      let (d, loaded, then_apply) =
        bind-ok (wrap_err "failed to load capabilities" (load_caps c)) _ tt then_load in
      (
        c,
        wrap_err-ok _ (new_file path) c opened,
        (
          d,
          wrap_err-ok _ (load_caps c) d loaded,
          wrap_err-ok _ (apply (set_net_raw d)) tt then_apply,
        ),
      )

  -- PostInstall has no error, and the executable has the capability unless a warning was logged.
  telegraf_post_install_lem :
      (path : FilePath)
      → ((telegraf_post_install path).0 ≡ post_install telegraf_runner)
        × (((telegraf_post_install path).1 ≢ none) ⊎ HasNetRaw (path ++ "bin" ∷ "telegraf" ∷ []))
  unfolding telegraf_post_install post_install
  telegraf_post_install_lem path = (refl, by_result (add_net_raw_capabilities exe) refl)
    where
      exe : FilePath
      exe = path ++ "bin" ∷ "telegraf" ∷ []

      by_result :
          (r : Result (Unit {0}))
          → add_net_raw_capabilities exe ≡ r
          → (warning (add_net_raw_capabilities exe) ≢ none) ⊎ HasNetRaw exe
      by_result (ok u) e = inr (add_net_raw_capabilities-HasNetRaw exe e)
      by_result (err x) e = inl (λ q. cc (q, ap warning e))
