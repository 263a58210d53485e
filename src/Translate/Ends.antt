-- ===== src/Translate/Ends.antt =====
-- translate_path returns.
use xyzterm.Common.{◌<◌, ◌≡◌, Bool, false, ◌==◌, length, Result, ok, err}
use xyzterm.Path.{Bytes, path_max, slash, byte_at}

abbrev FitsPath : Result Bytes → Type 0
FitsPath (err e) = Unit {0}
FitsPath (ok path) = length path < path_max

-- The base path that translate_path joins with the tracee's is not absolute.
abbrev pub IsRelativeBase : Result (Bool × Bytes) → Type 0
IsRelativeBase r = (base : Bytes) × (r ≡ ok (false, base)) × ((byte_at base 0 == slash) ≡ false)
