-- ===== src/Translate.antt =====
-- translate_path, getcwd2 and readlink_proc_pid_fd of path/path.c: the path of the host for a path that a
-- tracee gives to a system call.
pub mod Ends
pub mod Back
mod Tests
use xyzterm.Common.{
  ℕ, ◌+◌, List, [], ◌∷◌, ◌++◌, Option, none, some, Bool, true, false, not, ◌==◌, leb, if◌then◌else◌,
  length, Result, ok, err, ◌>>=◌, Errno, ebadf, enotdir, enametoolong, print_int,
}
use xyzterm.Common.Int.{ℤ, pos, negsuc}
use xyzterm.Path.{Bytes, path_max, slash, byte_at, join_paths}
use xyzterm.Binding.{Bindings, Side, substitute_binding}
use xyzterm.Proc.{readlink_proc2}
use xyzterm.Detranslate.{detranslate_path}
use xyzterm.Host.{Host, bound_path}
use xyzterm.Canon.{Run, canonicalize}

-- The tracee, as far as its paths go. An extension may take the path over at GUEST_PATH, where `true`
-- stands for a status above 0, and write another path at both events.
pub record Tracee : Type 0 where
  pub pid : ℕ
  pub cwd : Bytes
  pub bindings : Bindings
  pub host : Host
  pub notify_guest_path : Bytes → Bytes → Result (Bool × Bytes)
  pub notify_translated_path : Bytes → Result Bytes

-- AT_FDCWD is -100.
abbrev pub is_at_fdcwd : ℤ → Bool
is_at_fdcwd (negsuc n) = n == 99
is_at_fdcwd (pos n) = false

-- "/proc/%d/fd/%d".
abbrev pub fd_link : ℕ → ℤ → Bytes
fd_link pid fd =
    slash
    ∷ b'p'
    ∷ b'r'
    ∷ b'o'
    ∷ b'c'
    ∷ slash
    ∷ (print_int (pos pid) ++ (slash ∷ b'f' ∷ b'd' ∷ slash ∷ print_int fd))

-- What readlink(2) gives; the host's readlink stands for it.
abbrev pub read_link : Result Bytes → Result Bytes
read_link (err e) = err ebadf
read_link (ok path) = if leb path_max (length path) then err enametoolong else ok path

unfoldable pub readlink_proc_pid_fd : Host → ℕ → ℤ → Result Bytes
readlink_proc_pid_fd h pid fd =
    let link = fd_link pid fd in
    if leb 32 (length link) then err ebadf else read_link (h.readlink link)

-- Without a tracee it is getcwd(2) of the tracer itself, a case that is left out.
unfoldable pub getcwd2 : Tracee → Result Bytes
getcwd2 t = if leb path_max (length t.cwd) then err enametoolong else ok t.cwd

-- A directory that a descriptor refers to, as the guest sees it.
abbrev pub seen_directory : Tracee → Bytes → Result Bytes
seen_directory t path =
    if not (byte_at path 0 == slash)
    then err enotdir
    else detranslate_path t.bindings (λ p referer. readlink_proc2 t.host.monitor referer) path none
      >>= (λ r. ok r.1)

-- What the path is relative to.
abbrev pub base_of : Tracee → ℤ → Bytes → Result Bytes
base_of t dir_fd user_path =
    if byte_at user_path 0 == slash
    then ok (slash ∷ [])
    else if not (is_at_fdcwd dir_fd)
    then readlink_proc_pid_fd t.host t.pid dir_fd >>= (λ path. seen_directory t path)
    else getcwd2 t

-- `>>=` round a call of canonicalize.
abbrev pub canonical : (Bytes → Run) → Result Bytes → Run
canonical canonicalized (err e) = some (some (err e))
canonical canonicalized (ok path) = canonicalized path

-- The binding of a canonical path, and the event at the end.
abbrev pub on_host : Tracee → Run → Run
on_host t none = none
on_host t (some none) = some none
on_host t (some (some r)) = some (
    some (
      r
      >>= (λ path. bound_path (substitute_binding t.bindings Side.guest_side path))
      >>= (λ path. t.notify_translated_path path)))

-- From GUEST_PATH on. A base that is not absolute fails the assertion, which is `some none`.
abbrev pub from_base : ℕ → Tracee → Bytes → Bool → Result (Bool × Bytes) → Run
from_base fuel t user_path deref_final (err e) = some (some (err e))
from_base fuel t user_path deref_final (ok (true, result)) =
    some (some (t.notify_translated_path result))
from_base fuel t user_path deref_final (ok (false, base)) =
    let joined = join_paths (some base ∷ some user_path ∷ []) in
    elim (byte_at base 0 == slash) [
      | true ↦
          on_host t (
            canonical (λ p. canonicalize fuel t.host t.bindings p deref_final (slash ∷ []) 0)
              joined)
      | false ↦ some none
    ]

-- The fuel is that of canonicalize.
unfoldable pub translate_path : ℕ → Tracee → ℤ → Bytes → Bool → Run
translate_path fuel t dir_fd user_path deref_final =
    from_base fuel t user_path deref_final
      (base_of t dir_fd user_path >>= (λ base. t.notify_guest_path base user_path))
