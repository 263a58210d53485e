-- ===== src/HiddenFiles.antt =====
-- extension/hidden_files/hidden_files.c: entries of a directory whose names begin with a prefix are
-- taken out of what getdents gives. A buffer is the list of its bytes.
pub mod Visible
mod Tests
use xyzterm.Common.{
  ℕ, zero, suc, ◌+◌, ◌*◌, ◌%◌, ◌^◌, List, [], ◌∷◌, ◌++◌, Option, none, some, Bool, true, false, not,
  ◌==◌, if◌then◌else◌, length, get_or, take, drop, Result, ok, err, fail, Errno,
}
use xyzterm.Common.Int.{ℤ, pos}
use xyzterm.Path.{Bytes}
use xyzterm.Regs.{Sysnum, Regs}
use xyzterm.Binding.{Bindings, belongs_to_guestfs}

-- ".proot"
abbrev pub hidden_prefix : Bytes
hidden_prefix = b'.' ∷ b'p' ∷ b'r' ∷ b'o' ∷ b'o' ∷ b't' ∷ []

-- The prefix is without its NUL, and the string ends at its NUL.
abbrev pub hasprefix : Bytes → Bytes → Bool
hasprefix [] str = true
hasprefix (x ∷ prefix) [] = false
hasprefix (x ∷ prefix) (y ∷ str) =
    let rest = hasprefix prefix str in if y == 0 then false else if x == y then rest else false

-- The offset of `d_name` in struct linux_dirent64 and struct linux_dirent.
abbrev pub name_offset : Sysnum → ℕ
name_offset Sysnum.pr_getdents64 = 19
name_offset sysnum = 18

-- `d_reclen`, a little-endian number of 16 bits.
abbrev pub reclen : Bytes → ℕ
reclen entry = get_or entry 16 0 + 256 * get_or entry 17 0

-- One of the two loops, which differ in the offset of the name: the buffer from `ptr` on, and what has
-- been copied. `none` if the fuel does not last.
abbrev pub copy_visible : ℕ → ℕ → Bytes → Bytes → Option Bytes
copy_visible zero offset buffer copy = none
copy_visible (suc fuel) offset [] copy = some copy
copy_visible (suc fuel) offset (x ∷ buffer) copy =
    let entry = x ∷ buffer in
    let n = reclen entry in
    copy_visible fuel offset (drop n entry)
      (if not (hasprefix hidden_prefix (drop offset entry)) then copy ++ take n entry else copy)

-- What the handler does: its status, the call that it chains, the bytes that it writes to the tracee's
-- buffer, and the result that it pokes.
pub record Effect : Type 0 where
  pub status : ℤ
  pub chained : Option Regs
  pub written : Option Bytes
  pub result : Option ℕ

abbrev pub only_status : ℤ → Effect
only_status status = record { status = status; chained = none; written = none; result = none }

-- getdents once more, with the tracee's arguments.
abbrev pub again : Regs → ℕ → ℕ → Effect
again original orig_start count = record {
  status = pos 0;
  chained = some (record {
    sysnum = original.sysnum;
    sysarg_1 = original.sysarg_1;
    sysarg_2 = orig_start;
    sysarg_3 = count;
    sysarg_4 = 0;
    sysarg_5 = 0;
    sysarg_6 = 0;
  });
  written = none;
  result = none;
}

-- The copy goes back, if it can be written.
abbrev pub write_back : Option Errno → Bytes → Effect
write_back (some e) copy = only_status (fail e)
write_back none copy = record {
  status = pos 0;
  chained = none;
  written = some copy;
  result = some (length copy);
}

abbrev pub answer : Regs → ℕ → ℕ → Option Errno → Bytes → Effect
answer original orig_start count write copy =
    if length copy == 0 then again original orig_start count else write_back write copy

abbrev pub is_getdents : Sysnum → Bool
is_getdents Sysnum.pr_getdents = true
is_getdents Sysnum.pr_getdents64 = true
is_getdents sysnum = false

-- The arguments are the bindings, the system call that was asked for, its result, the current second
-- and third arguments, the path of the directory, the bytes of the buffer up to the result, and the
-- error of writing them, if any.
unfoldable pub handle_getdents :
    ℕ → Bindings → Regs → ℕ → ℕ → ℕ → Result Bytes → Result Bytes → Option Errno → Option Effect
handle_getdents fuel s original result orig_start count path data_read write =
    let res = result % 2 ^ 32 in
    if not (is_getdents original.sysnum)
    then some (only_status (pos 0))
    else if res == 0
    then some (only_status (pos 0))
    else elim path [
      | err e ↦ some (only_status (pos 0))
      | ok directory ↦
          if not (belongs_to_guestfs s directory)
          then some (only_status (pos 0))
          else elim data_read [
            | err e ↦ some (only_status (fail e))
            | ok orig ↦ elim (copy_visible fuel (name_offset original.sysnum) orig []) [
              | none ↦ none
              | some copy ↦ some (answer original orig_start (count % 2 ^ 32) write copy)
            ]
          ]
    ]
