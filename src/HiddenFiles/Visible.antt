-- ===== src/HiddenFiles/Visible.antt =====
-- On the entries that the kernel writes, hidden_files.c keeps those that are not hidden.
use xyzterm.Common.{
  none, fail, ℕ, ◌<◌, ◌≡◌, ◌⊎◌, List, [], ◌∷◌, ◌++◌, Option, some, not, if◌then◌else◌, length, drop,
  Errno,
}
use xyzterm.Common.Int.{pos}
use xyzterm.Path.{Bytes}
use xyzterm.Regs.{Regs}
use xyzterm.HiddenFiles.{Effect, hidden_prefix, hasprefix, reclen}

-- The string has its NUL.
abbrev pub HasNul : Bytes → Type 0
HasNul [] = ⊥
HasNul (x ∷ str) = (x ≡ 0) ⊎ HasNul str

-- An entry has the length that it says, which covers its header, and its name ends within it.
abbrev pub IsEntry : ℕ → Bytes → Type 0
IsEntry offset entry =
    (reclen entry ≡ length entry) × (17 < length entry) × HasNul (drop offset entry)

abbrev pub AreEntries : ℕ → List Bytes → Type 0
AreEntries offset [] = Unit {0}
AreEntries offset (e ∷ es) = IsEntry offset e × AreEntries offset es

abbrev pub buffer_of : List Bytes → Bytes
buffer_of [] = []
buffer_of (e ∷ es) = e ++ buffer_of es

-- The entries whose names do not begin with the prefix.
abbrev pub visible : ℕ → List Bytes → List Bytes
visible offset [] = []
visible offset (e ∷ es) =
    if not (hasprefix hidden_prefix (drop offset e))
    then e ∷ visible offset es
    else visible offset es

-- What the tracee sees of the visible entries: they are in its buffer and their length is the result; or
-- the status is the error of writing them; or, where there are none, getdents is asked again with its own
-- descriptor, buffer and size.
abbrev pub Shows : Regs → ℕ → ℕ → Option Errno → List Bytes → Effect → Type 0
Shows original buffer count write [] e =
    (e.status ≡ pos 0)
    × (e.chained
        ≡ some (record original {
          sysarg_2 = buffer;
          sysarg_3 = count;
          sysarg_4 = 0;
          sysarg_5 = 0;
          sysarg_6 = 0;
        }))
    × (e.written ≡ none)
    × (e.result ≡ none)
Shows original buffer count none (v ∷ vs) e =
    (e.status ≡ pos 0)
    × (e.chained ≡ none)
    × (e.written ≡ some (buffer_of (v ∷ vs)))
    × (e.result ≡ some (length (buffer_of (v ∷ vs))))
Shows original buffer count (some error) (v ∷ vs) e =
    (e.status ≡ fail error) × (e.chained ≡ none) × (e.written ≡ none) × (e.result ≡ none)
