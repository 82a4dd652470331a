-- ===== src/Ambassador/Egress/Reload.antt =====
-- What a new connection has.
use salus_telemetry_envoy.Common.{
  ◌==◌, nat_eq, string_eq, texts_eq, String, if◌then◌else◌, Bool, true, false, ◌≡◌, refl, some,
}
use mathlib.Core.Path.{subst}
use salus_telemetry_envoy.Common.Assoc.{Assoc}
use salus_telemetry_envoy.Common.Result.{ok_inj, Result, ok, err, message, ◌>>=◌}
use salus_telemetry_envoy.Config.Host.{System}
use salus_telemetry_envoy.Config.Labels.{compute_labels}
use salus_telemetry_envoy.Ambassador.Egress.{
  Connection, load_tls_dial_option, new_egress_connection,
}

module _ {Tls : Type 0} where
  pub record IsNew (resource_id : String) (has_chan : Bool) (sys : System)
      (configured : Assoc String String) (c : Connection Tls) : Type 0 where
    pub named : (resource_id == "") ≡ false
    pub resource : c.resource_id ≡ resource_id
    pub labelled : compute_labels sys configured ≡ ok c.labels
    pub secured : (t : Tls) × (c.tls ≡ some t)
    pub told : c.has_detach_chan ≡ has_chan
    pub unattached : c.attached ≡ false

  -- A connection is only made for a resource with an id; it has the computed labels and a dial
  -- option, and is not attached.
  pub new_egress_connection-IsNew :
      (resource_id : String) (tls_disabled : Bool) (insecure : Tls) (loaded : Result Tls)
      (has_chan : Bool) (sys : System) (configured : Assoc String String) (c : Connection Tls)
      → new_egress_connection resource_id tls_disabled insecure loaded has_chan sys configured
        ≡ ok c
      → IsNew resource_id has_chan sys configured c
  unfolding new_egress_connection load_tls_dial_option
  new_egress_connection-IsNew resource_id tls_disabled insecure loaded has_chan sys configured c =
      made (resource_id == "") refl (load_tls_dial_option tls_disabled insecure loaded)
        (compute_labels sys configured) refl
    where
      made :
          (b : Bool)
          → (resource_id == "") ≡ b
          → (t : Result Tls) (l : Result (Assoc String String)) → compute_labels sys configured ≡ l
          → (if b
              then err (message "Envoy configuration is missing resource_id")
              else (t >>= λ tls. l >>= λ labels. ok (record {
                envoy_id = "";
                resource_id = resource_id;
                labels = labels;
                tls = some tls;
                has_detach_chan = has_chan;
                attached = false;
              })))
            ≡ ok c
          → IsNew resource_id has_chan sys configured c
      made true n t l e h = absurd (cc h)
      made false n (err x) l e h = absurd (cc h)
      made false n (ok t) (err x) e h = absurd (cc h)
      made false n (ok t) (ok l) e h =
          subst (IsNew resource_id has_chan sys configured) (ok_inj h) (record {
            named = n;
            resource = refl;
            labelled = e;
            secured = (t, refl);
            told = refl;
            unattached = refl;
          })
