-- ===== src/Common/Result.antt =====
-- Go's `(T, error)` results. An `error` is the operating system's, a message, a message wrapped
-- round another error, or one of the two error types that the code tests for.
use mathlib.Core.Path.{◌≡◌, refl}
use mathlib.Core.Bool.{Bool, true, false}
use Prim.Native.String.{String}

pub data OsError : Type 0 where
  not_exist already_exists denied : OsError

pub data Error : Type 0 where
  os_error : OsError → Error
  message : String → Error
  wrap : String → Error → Error
  no_applied_configs : Error
  -- exec.ExitError: its message and what the command wrote to stderr
  exit_error : String → String → Error

pub data Result {ℓ} (A : Type ℓ) : Type ℓ where
  ok : A → Result A
  err : Error → Result A

infixl 5 ◌>>=◌ ◌>>◌
abbrev pub ◌>>=◌ {ℓ κ} : {V : Type ℓ} {W : Type κ} → Result V → (V → Result W) → Result W
ok val >>= next = next val
err e >>= _ = err e

abbrev pub ◌>>◌ {ℓ κ} : {A : Type ℓ} {B : Type κ} → Result A → Result B → Result B
m >> k = m >>= λ _. k

-- errors.Wrap on the error of a result
abbrev pub wrap_err {ℓ} : {A : Type ℓ} → String → Result A → Result A
wrap_err m (ok a) = ok a
wrap_err m (err e) = err (wrap m e)

abbrev pub is_ok {ℓ} : {A : Type ℓ} → Result A → Bool
is_ok (ok a) = true
is_ok (err e) = false

-- os.IsNotExist
abbrev pub is_not_exist : Error → Bool
is_not_exist (os_error not_exist) = true
is_not_exist _ = false

-- A result without an error has one at each step.
pub bind-ok {ℓ κ} :
    {A : Type ℓ} {B : Type κ} (r : Result A) (k : A → Result B) (b : B)
    → (r >>= k) ≡ ok b
    → (a : A) × (r ≡ ok a) × (k a ≡ ok b)
bind-ok (ok a) k b h = (a, refl, h)
bind-ok (err e) k b h = absurd (cc h)

pub wrap_err-ok {ℓ} :
    {A : Type ℓ} (m : String) (r : Result A) (a : A) → wrap_err m r ≡ ok a → r ≡ ok a
wrap_err-ok m (ok x) a h = h
wrap_err-ok m (err e) a h = absurd (cc h)

pub ok_inj {ℓ} : {A : Type ℓ} {a b : A} → ok a ≡ ok b → a ≡ b
ok_inj h = cc h
