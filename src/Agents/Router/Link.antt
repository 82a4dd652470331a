-- ===== src/Agents/Router/Link.antt =====
-- What an installation does to the CURRENT link.
use salus_telemetry_envoy.Common.{
  arith, ◌==◌, nat_eq, string_eq, texts_eq, eq_self, String, ◌≡◌, ◌⊎◌, inl, inr, refl, ap, Option,
  none, some, Bool-cases,
}
use salus_telemetry_envoy.Common.Assoc.{lookup-insert}
use salus_telemetry_envoy.Common.Result.{Result, ok, err, wrap_err, is_not_exist}
use salus_telemetry_envoy.Paths.{FilePath, join}
use salus_telemetry_envoy.Os.{
  Fs, Node, link, dir, file, lstat, node_at, readlink, symlink, next_fault, skip, symlink_at,
  link_target,
}
use salus_telemetry_envoy.Agents.Files.{current_ver_link}
use salus_telemetry_envoy.Agents.Process.{Host, stop, stop_and_forget}
use salus_telemetry_envoy.Agents.Runner.{Runner, stop_runner}
use salus_telemetry_envoy.Agents.Router.{
  ensure_current_symlink, Installing, link_anew, after_removal, after_readlink, after_lstat,
}

symlink_at-node_at :
    (t : String) (p : FilePath) (o : Option Node) (fs : Fs)
    → (symlink_at t p o fs).0 ≡ ok tt
    → node_at (symlink_at t p o fs).1 p ≡ some (link t)
symlink_at-node_at t p none fs h = rw lookup-insert (rw eq_self refl)
symlink_at-node_at t p (some n) fs h = cc

-- A link that was made is there, with its target.
symlink-node_at :
    (t : String) (p : FilePath) (fs : Fs)
    → (symlink t p fs).0 ≡ ok tt
    → node_at (symlink t p fs).1 p ≡ some (link t)
unfolding symlink
symlink-node_at t p fs = elim (Bool-cases (next_fault fs.faults)) [
  | inl e ↦ rw e (λ h. cc)
  | inr e ↦ rw e (symlink_at-node_at t p (node_at (skip fs) p) (skip fs))
]

-- A link that was read is there, with its target, before the call and after it.
readlink-node_at :
    (p : FilePath) (fs : Fs) (t : String)
    → (readlink p fs).0 ≡ ok t
    → (node_at fs p ≡ some (link t)) × (node_at (readlink p fs).1 p ≡ some (link t))
unfolding readlink
readlink-node_at p fs t = elim (Bool-cases (next_fault fs.faults)) [
  | inl e ↦ rw e (λ h. cc)
  | inr e ↦ rw e λ h. (target (node_at fs p) h, target (node_at fs p) h)
]
  where
    target : (o : Option Node) → link_target o ≡ ok t → o ≡ some (link t)
    target none h = cc
    target (some dir) h = cc
    target (some (file c)) h = cc
    target (some (link u)) h = cc

nodes-lstat : (p : FilePath) (fs : Fs) → (lstat p fs).1.nodes ≡ fs.nodes
unfolding lstat
nodes-lstat p fs = ground arith

-- What a stop does to the processes depends on the KILLs to come alone.
stop_runner-agrees :
    (r : Runner) (h k : Host) → k.stops ≡ h.stops → (stop_runner r k).0 ≡ (stop_runner r h).0
unfolding stop_runner stop_and_forget stop
stop_runner-agrees r h k e = ground (arith, e)

-- The runner as its Stop leaves it, holding no process.
pub record IsStopped (r : Runner) (h : Host) (now : Runner) : Type 0 where
  pub stopped : now ≡ (stop_runner r h).0
  pub released : now.procs.running ≡ none

-- What a successful adjustment of the link promises, from the host before it.
pub record IsCurrent (path : FilePath) (version : String) (r : Runner) (h : Host) (s : Installing)
    : Type 0 where
  pub points : node_at s.2.fs path ≡ some (link version)
  pub process : ((node_at h.fs path ≡ some (link version)) × (s.1 ≡ r)) ⊎ IsStopped r h s.1

module _ (path : FilePath) (version : String) (r : Runner) (h : Host) where
  link_anew-IsCurrent :
      (k : Host)
      → k.stops ≡ h.stops
      → (link_anew path version r k).0 ≡ ok tt
      → IsCurrent path version r h (link_anew path version r k)
  unfolding stop_runner stop_and_forget
  link_anew-IsCurrent k a e = record {
    points = symlink-node_at version path _ (unwrapped _ e);
    process = inr (record { stopped = stop_runner-agrees r h k a; released = refl });
  }
    where
      unwrapped :
          (x : Result (Unit {0}))
          → wrap_err "failed to create current version symlink" x ≡ ok tt
          → x ≡ ok tt
      unwrapped (ok u) h = refl
      unwrapped (err x) h = cc

  after_removal-IsCurrent :
      (s : Result (Unit {0}) × Host)
      → s.1.stops ≡ h.stops
      → (after_removal path version r s).0 ≡ ok tt
      → IsCurrent path version r h (after_removal path version r s)
  after_removal-IsCurrent (ok u, k) a e = link_anew-IsCurrent k a e
  after_removal-IsCurrent (err x, k) a e = cc

  after_readlink-IsCurrent :
      (s : Result String × Host)
      → s.1.stops ≡ h.stops
      → ((t : String)
          → s.0 ≡ ok t
          → (node_at h.fs path ≡ some (link t)) × (node_at s.1.fs path ≡ some (link t)))
      → (after_readlink path version r s).0 ≡ ok tt
      → IsCurrent path version r h (after_readlink path version r s)
  after_readlink-IsCurrent (err x, k) a there e = cc
  after_readlink-IsCurrent (ok t, k) a there e = elim (Bool-cases (t == version)) [
    | inl same ↦
        let (before, after) = there version (ap ok ((string_eq.same_iff t version).0 same)) in
        rw same (record { points = after; process = inl (before, refl) })
    | inr other ↦ rw other (after_removal-IsCurrent _ a (rw other at e))
  ]

  after_lstat-IsCurrent :
      (s : Result Node × Host)
      → s.1.stops ≡ h.stops
      → s.1.fs.nodes ≡ h.fs.nodes
      → (after_lstat path version r s).0 ≡ ok tt
      → IsCurrent path version r h (after_lstat path version r s)
  after_lstat-IsCurrent (ok n, k) a q e =
      after_readlink-IsCurrent _ a
        (λ t g. let (before, after) = readlink-node_at path k.fs t g in (rw q at before, after)) e
  after_lstat-IsCurrent (err x, k) a q e = elim (Bool-cases (is_not_exist x)) [
    | inl absent ↦ rw absent (link_anew-IsCurrent k a (rw absent at e))
    | inr other ↦ absurd (cc (rw other at e))
  ]

-- ensureCurrentSymlink, when it reports no error, leaves CURRENT pointing to the wanted version,
-- whatever was there before; and it leaves the runner untouched only if CURRENT pointed to that
-- version before: else the runner is the one that its Stop leaves, which holds no process.
pub ensure_current_symlink-IsCurrent :
    (base : FilePath) (version : String) (r : Runner) (h : Host)
    → (ensure_current_symlink base version r h).0 ≡ ok tt
    → IsCurrent (join base current_ver_link) version r h (ensure_current_symlink base version r h)
unfolding ensure_current_symlink
ensure_current_symlink-IsCurrent base version r h =
    after_lstat-IsCurrent (join base current_ver_link) version r h _ refl
      (nodes-lstat (join base current_ver_link) h.fs)
