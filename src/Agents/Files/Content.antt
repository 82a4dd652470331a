-- ===== src/Agents/Files/Content.antt =====
-- What an applied operation leaves in the file that it names.
use salus_telemetry_envoy.Common.{
  nat_eq, string_eq, texts_eq, eq_self, List, [], true, arith, ◌≡◌, inl, inr, refl, ap, ◌∙◌, ℕ,
  Option, none, some, length, drop-eq_nil, Bool-cases,
}
use mathlib.Core.List.{append-nil}
use salus_telemetry_envoy.Common.Assoc.{lookup-insert}
use salus_telemetry_envoy.Common.Result.{Result, ok, err, is_ok}
use salus_telemetry_envoy.Protocol.{ConfigurationOp, OpType, create, modify, unknown_op}
use salus_telemetry_envoy.Paths.{FilePath}
use salus_telemetry_envoy.Os.{Fs, Node, dir, link, file, node_at, next_fault, skip}
use salus_telemetry_envoy.Os.Write.{
  continue, remove, open_file, open_at, write_bytes, write_file, over,
}
use salus_telemetry_envoy.Agents.Convert.{Codec}
use salus_telemetry_envoy.Agents.Files.{Conversion, final_config}

over_nil : (new : List ℕ) → over new [] ≡ new
over_nil new = rw (drop-eq_nil {A = ℕ} (length new) [] (omega arith)) (append-nil new)

-- A file opened with O_TRUNC is empty.
open_at_truncated :
    (p : FilePath) (o : Option Node) (fs : Fs) (old : List ℕ)
    → (open_at true p o fs).0 ≡ ok old
    → old ≡ []
open_at_truncated p none fs old h = ground arith
open_at_truncated p (some (file c)) fs old h = ground arith
open_at_truncated p (some dir) fs old h = ground arith
open_at_truncated p (some (link t)) fs old h = ground arith

open_file_truncated :
    (p : FilePath) (fs : Fs) (old : List ℕ) → (open_file true p fs).0 ≡ ok old → old ≡ []
unfolding open_file
open_file_truncated p fs old = elim (Bool-cases (next_fault fs.faults)) [
  | inl e ↦ rw e (λ h. absurd (cc h))
  | inr e ↦ rw e (open_at_truncated p (node_at (skip fs) p) (skip fs) old)
]

write_bytes-node_at :
    (p : FilePath) (new old : List ℕ) (fs : Fs)
    → is_ok (write_bytes p new old fs).0 ≡ true
    → node_at (write_bytes p new old fs).1 p ≡ some (file (over new old))
unfolding write_bytes
write_bytes-node_at p new old fs = elim (Bool-cases (next_fault fs.faults)) [
  | inl e ↦ rw e (λ h. absurd (cc h))
  | inr e ↦ rw e (λ h. rw lookup-insert (rw eq_self refl))
]

opened-node_at :
    (p : FilePath) (new : List ℕ) (r : Result (List ℕ)) (fs : Fs)
    → ((old : List ℕ) → r ≡ ok old → old ≡ [])
    → is_ok (continue r (λ old. write_bytes p new old) fs).0 ≡ true
    → node_at (continue r (λ old. write_bytes p new old) fs).1 p ≡ some (file new)
opened-node_at p new (ok old) fs t h =
    write_bytes-node_at p new old fs h
    ∙ ap (λ c. some (file c)) (ap (over new) (t old refl) ∙ over_nil new)
opened-node_at p new (err e) fs t h = cc

-- ioutil.WriteFile, when it reports no error, leaves exactly the bytes given.
pub write_file-node_at :
    (p : FilePath) (new : List ℕ) (fs : Fs)
    → is_ok (write_file p new fs).0 ≡ true
    → node_at (write_file p new fs).1 p ≡ some (file new)
unfolding write_file
write_file-node_at p new fs =
    opened-node_at p new (open_file true p fs).0 (open_file true p fs).1
      (λ old. open_file_truncated p fs old)

module _ (codec : Codec) where
  -- What an applied operation promises of the file at p.
  abbrev pub IsApplied : OpType → ConfigurationOp → FilePath → Conversion → Fs → Type 0
  IsApplied create op p c fs =
      (b : List ℕ) × (final_config codec op c ≡ ok b) × (node_at fs p ≡ some (file b))
  IsApplied modify op p c fs =
      (b : List ℕ) × (final_config codec op c ≡ ok b) × (node_at fs p ≡ some (file b))
  IsApplied OpType.remove op p c fs = node_at fs p ≡ none
  IsApplied (unknown_op n) op p c fs = ⊥
