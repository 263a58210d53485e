-- ===== src/Host.antt =====
-- substitute_binding_stat of path/canon.c: what a path of the guest is on the host. The host's file
-- system, the extensions, the glue (path/glue.c) and the test of path/f2fs-bug.c are a parameter.
use xyzterm.Common.{
  ℕ, [], ◌∷◌, Option, none, some, Bool, true, false, not, ◌&&◌, ◌==◌, if◌then◌else◌, Result, ok,
  err, ◌>>=◌, Errno, enoent, enotdir, eacces,
}
use xyzterm.Common.Int.{ℤ, pos, negsuc}
use xyzterm.Path.{Bytes, slash, Finality}
use xyzterm.Path.Compare.{same_name}
use xyzterm.Binding.{Bindings, Side, substitute_binding}
use xyzterm.Proc.{Monitor}

pub data FileKind : Type 0 where
  directory symlink other : FileKind

-- What the code asks the rest of the system. An extension may write another host path; glue is `none`
-- where none is built.
pub record Host : Type 0 where
  pub max_symlinks : ℕ
  pub glue_type : ℕ
  pub notify_host_path : Bytes → Bool → Result Bytes
  pub is_skipped : Bytes → Bool
  pub lstat : Bytes → Result FileKind
  pub build_glue : Bytes → Bytes → Finality → Option FileKind
  pub readlink : Bytes → Result Bytes
  pub monitor : Monitor

-- IS_FINAL.
abbrev pub is_final : Finality → Bool
is_final Finality.not_final = false
is_final Finality.final_normal = true
is_final Finality.final_slash = true
is_final Finality.final_dot = true

abbrev pub linkerconfig : Bytes
linkerconfig =
    slash ∷ b'l' ∷ b'i' ∷ b'n' ∷ b'k' ∷ b'e' ∷ b'r' ∷ b'c' ∷ b'o' ∷ b'n' ∷ b'f' ∷ b'i' ∷ b'g' ∷ []

-- Whether the status is an error, and `st_mode`, where it is not 0.
abbrev pub Stat : Type 0
Stat = Bool × Option FileKind

abbrev pub is_eacces : Errno → Bool
is_eacces eacces = true
is_eacces e = false

abbrev pub stat_of : Bytes → Result FileKind → Stat
stat_of host_path (ok kind) = (false, some kind)
stat_of host_path (err e) =
    if is_eacces e && same_name host_path linkerconfig
    then (false, some FileKind.directory)
    else (true, none)

abbrev pub lstat_host : Host → Bytes → Stat
lstat_host h host_path =
    if h.is_skipped host_path then (true, none) else stat_of host_path (h.lstat host_path)

abbrev pub glued : Host → Bytes → Bytes → Finality → Stat → Stat
glued h guest_path host_path finality (failed, mode) =
    if failed && not (h.glue_type == 0)
    then (true, h.build_glue guest_path host_path finality)
    else (failed, mode)

-- The last tests: 1 for a symbolic link, and the host path.
abbrev pub kind_status : Finality → Bytes → Stat → Result (Bool × Bytes)
kind_status finality host_path (failed, some FileKind.symlink) = ok (true, host_path)
kind_status finality host_path (failed, some FileKind.directory) = ok (false, host_path)
kind_status finality host_path (failed, some FileKind.other) =
    if not (is_final finality)
    then err (if failed then enoent else enotdir)
    else ok (false, host_path)
kind_status finality host_path (failed, none) =
    if not (is_final finality)
    then err (if failed then enoent else enotdir)
    else ok (false, host_path)

abbrev pub notified : Host → Finality → ℕ → Bytes → Result Bytes
notified h finality recursion_level host_path =
    if h.glue_type == 0
    then h.notify_host_path host_path (is_final finality && recursion_level == 0)
    else ok host_path

-- The only error of substitute_binding is -ENOENT.
abbrev pub bound_path : ℤ × Bytes → Result Bytes
bound_path (pos n, host_path) = ok host_path
bound_path (negsuc n, host_path) = err enoent

unfoldable pub substitute_binding_stat :
    Host → Bindings → Finality → ℕ → Bytes → Result (Bool × Bytes)
substitute_binding_stat h s finality recursion_level guest_path =
    bound_path (substitute_binding s Side.guest_side guest_path)
    >>= (λ bound. notified h finality recursion_level bound)
    >>= (λ host_path.
        kind_status finality host_path
          (glued h guest_path host_path finality (lstat_host h host_path)))
