-- ===== src/Proc.antt =====
-- readlink_proc and readlink_proc2 of path/proc.c: the links of /proc that are made up for the guest.
pub mod Bounds
pub mod Links
mod Tests
use xyzterm.Common.{
  ℕ, suc, ◌+◌, ◌^◌, List, [], ◌∷◌, ◌++◌, Option, none, some, Bool, true, false, not, ◌==◌, ltb, leb,
  if◌then◌else◌, length, drop, Result, ok, err, eperm, enametoolong, print_int, strtol, atoi,
}
use xyzterm.Common.Int.{ℤ, pos, negsuc}
use xyzterm.Path.{Bytes, path_max, slash, Comparison, is_equal, compare_paths}
use xyzterm.Path.Compare.{same_name}

-- "/proc"
abbrev pub proc : Bytes
proc = slash ∷ b'p' ∷ b'r' ∷ b'o' ∷ b'c' ∷ []

-- What is asked for, with the path that was written; DEFAULT is `default_action`.
pub data Action : Type 0 where
  default_action : Action
  canonicalize_it dont_canonicalize : Bytes → Action

-- What readlink_proc reads of a tracee.
pub record KnownTracee : Type 0 where
  pub exe : Bytes
  pub cwd : Bytes
  pub root : Bytes

-- The tracee that asks, and get_tracee, which finds the others by their number.
pub record Monitor : Type 0 where
  pub pid : ℕ
  pub get_tracee : ℤ → Option KnownTracee

abbrev pub self_name : Bytes
self_name = b's' ∷ b'e' ∷ b'l' ∷ b'f' ∷ []

abbrev pub exe_name : Bytes
exe_name = b'e' ∷ b'x' ∷ b'e' ∷ []

abbrev pub cwd_name : Bytes
cwd_name = b'c' ∷ b'w' ∷ b'd' ∷ []

abbrev pub root_name : Bytes
root_name = b'r' ∷ b'o' ∷ b'o' ∷ b't' ∷ []

abbrev pub fd_name : Bytes
fd_name = b'f' ∷ b'd' ∷ []

-- "/proc/%d"
abbrev pub proc_path : ℤ → Bytes
proc_path pid = proc ++ (slash ∷ print_int pid)

-- "/proc/%d/fd"
abbrev pub fd_path : ℤ → Bytes
fd_path pid = proc_path pid ++ (slash ∷ fd_name)

-- SUBSTITUTE, where the name is the one asked for.
abbrev pub substituted : Bytes → Result Action
substituted path =
    if leb path_max (length path) then err eperm else ok (Action.canonicalize_it path)

-- The links in "/proc/<PID>/".
abbrev pub readlink_tracee : Option KnownTracee → Bytes → Result Action
readlink_tracee none component = ok Action.default_action
readlink_tracee (some t) component =
    if same_name component exe_name
    then substituted t.exe
    else if same_name component cwd_name
    then substituted t.cwd
    else if same_name component root_name
    then substituted t.root
    else ok Action.default_action

-- strtol meets a number, and does not set `errno`: `long` has 64 bits.
abbrev pub is_long : Option ℤ → Bool
is_long none = false
is_long (some (pos n)) = ltb n (2 ^ 63)
is_long (some (negsuc n)) = ltb n (2 ^ 63)

-- The links in "/proc/<PID>/fd/".
abbrev pub readlink_fd : Bytes → Bytes → Bytes → Result Action
readlink_fd fd_path base component =
    if leb 64 (length fd_path)
    then err eperm
    else if not (is_equal (compare_paths fd_path base))
    then ok Action.default_action
    else if not (is_long (strtol component))
    then err eperm
    else if leb path_max (length (base ++ (slash ∷ component)))
    then err eperm
    else ok (Action.dont_canonicalize (base ++ (slash ∷ component)))

-- By how "/proc/<PID>" compares with the base.
abbrev pub in_proc : Monitor → Bytes → Bytes → ℤ → Comparison → Result Action
in_proc m base component pid Comparison.paths_are_equal =
    readlink_tracee (m.get_tracee pid) component
in_proc m base component pid Comparison.path1_is_prefix = readlink_fd (fd_path pid) base component
in_proc m base component pid Comparison.path2_is_prefix = ok Action.default_action
in_proc m base component pid Comparison.paths_are_not_comparable = ok Action.default_action

-- Beneath "/proc/<something>", which is read as a number.
abbrev pub readlink_beneath : Monitor → Bytes → Bytes → ℤ → Result Action
readlink_beneath m base component pid =
    if leb 64 (length (proc_path pid))
    then err eperm
    else in_proc m base component pid (compare_paths (proc_path pid) base)

abbrev pub is_zero : ℤ → Bool
is_zero (pos n) = n == 0
is_zero (negsuc n) = false

-- Past the end of `base` there is nothing to be read as a number.
unfoldable pub readlink_proc : Monitor → Bytes → Bytes → Comparison → Result Action
readlink_proc m base component Comparison.paths_are_equal =
    if not (same_name component self_name)
    then ok Action.default_action
    else if leb path_max (length (proc_path (pos m.pid)))
    then err eperm
    else ok (Action.canonicalize_it (proc_path (pos m.pid)))
readlink_proc m base component Comparison.path1_is_prefix =
    let pid = atoi (drop 6 base) in
    if is_zero pid then ok Action.default_action else readlink_beneath m base component pid
readlink_proc m base component Comparison.path2_is_prefix = ok Action.default_action
readlink_proc m base component Comparison.paths_are_not_comparable = ok Action.default_action

-- strrchr(path, '/'): what is before the last slash, and what is behind it.
abbrev pub split_last : Bytes → Option (Bytes × Bytes)
split_last [] = none
split_last (x ∷ path) = elim (split_last path) [
  | some (base, component) ↦ some (x ∷ base, component)
  | none ↦ if x == slash then some ([], path) else none
]

-- The path, where its length is not 0, the value for a link that is not emulated.
abbrev pub emulated : Result Action → Option Bytes
emulated (ok (Action.canonicalize_it [])) = none
emulated (ok (Action.canonicalize_it (x ∷ path))) = some (x ∷ path)
emulated (ok (Action.dont_canonicalize path)) = none
emulated (ok Action.default_action) = none
emulated (err e) = none

-- A referer without a slash fails an assertion.
abbrev pub readlink_split : Monitor → Option (Bytes × Bytes) → Option Bytes
readlink_split m none = none
readlink_split m (some (base, [])) = none
readlink_split m (some (base, x ∷ component)) =
    emulated (readlink_proc m base (x ∷ component) Comparison.path1_is_prefix)

unfoldable pub readlink_proc2 : Monitor → Bytes → Result (Option Bytes)
readlink_proc2 m referer =
    if leb path_max (length referer)
    then err enametoolong
    else ok (readlink_split m (split_last referer))
