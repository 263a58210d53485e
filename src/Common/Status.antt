-- ===== src/Common/Status.antt =====
-- The error numbers that the modelled code returns, and results that carry them.
use mathlib.Core.Path.{◌≡◌, refl}
use mathlib.Core.Logic.{◌⊎◌, inl, inr}
use xyzterm.Common.Int.{ℤ, negsuc}

pub data Errno : Type 0 where
  eperm enoent eintr e2big enoexec ebadf eagain enomem eacces efault eexist enotdir : Errno
  einval efbig enospc erange enametoolong eloop enomsg eidrm eio eprotonosupport : Errno

-- What `-E…` is as an `int`, with Linux's numbers.
abbrev pub fail : Errno → ℤ
fail eperm = negsuc 0
fail enoent = negsuc 1
fail eintr = negsuc 3
fail e2big = negsuc 6
fail enoexec = negsuc 7
fail ebadf = negsuc 8
fail eagain = negsuc 10
fail enomem = negsuc 11
fail eacces = negsuc 12
fail efault = negsuc 13
fail eexist = negsuc 16
fail enotdir = negsuc 19
fail einval = negsuc 21
fail efbig = negsuc 26
fail enospc = negsuc 27
fail erange = negsuc 33
fail enametoolong = negsuc 35
fail eloop = negsuc 39
fail enomsg = negsuc 41
fail eidrm = negsuc 42
fail eio = negsuc 4
fail eprotonosupport = negsuc 92

-- A status: `ok` stands for a result of 0 or more, `err e` for -e.
pub data Result {ℓ} (A : Type ℓ) : Type ℓ where
  ok : A → Result A
  err : Errno → Result A

infixl 5 ◌>>=◌
abbrev pub ◌>>=◌ {ℓ κ} : {A : Type ℓ} {B : Type κ} → Result A → (A → Result B) → Result B
ok a >>= f = f a
err e >>= f = err e

pub Result-cases {ℓ} :
    {A : Type ℓ} (r : Result A) → ((e : Errno) × (r ≡ err e)) ⊎ ((a : A) × (r ≡ ok a))
Result-cases (err e) = inl (e, refl)
Result-cases (ok a) = inr (a, refl)
