-- ===== src/Path.antt =====
-- path/path.c: joining, comparing and substituting paths, and the components of path/canon.c. A path
-- is the list of its bytes, without the NUL that ends it in C; past its end a byte reads as 0.
pub mod Names
pub mod Join
pub mod Compare
pub mod Substitute
pub mod Pop
pub mod Next
pub mod Nesting
mod Tests
use xyzterm.Common.{
  ℕ, zero, suc, ◌+◌, ◌-◌, ◌^◌, ◌<◌, List, [], ◌∷◌, ◌++◌, Option, none, some, Bool, true, false, not,
  ◌&&◌, ◌||◌, ltb, leb, ◌==◌, if◌then◌else◌, length, get_or, take, drop, Result, ok, err, ◌>>=◌,
  Errno, enametoolong,
}

abbrev pub Bytes : Type 0
Bytes = List ℕ

abbrev pub path_max : ℕ
path_max = 4096

abbrev pub name_max : ℕ
name_max = 255

abbrev pub slash : ℕ
slash = b'/'

abbrev pub byte_at : Bytes → ℕ → ℕ
byte_at path i = get_or path i 0

-- The byte at `length - 1`.
abbrev pub last_byte : Bytes → ℕ
last_byte [] = 0
last_byte (x ∷ []) = x
last_byte (x ∷ y ∷ r) = last_byte (y ∷ r)

-- A string that is to be `new_length` long, if the buffer holds it.
abbrev pub fit : ℕ → Bytes → Result Bytes
fit new_length path = if leb path_max (new_length + 1) then err enametoolong else ok path

-- One round of join_paths.
unfoldable pub join_step : Bytes → Bytes → Result Bytes
join_step result path =
    let length' = length result in
    if ltb 0 length' && not (last_byte result == slash) && not (byte_at path 0 == slash)
    then fit (length' + length path + 1) (result ++ (slash ∷ path))
    else if ltb 0 length' && last_byte result == slash && byte_at path 0 == slash
    then fit (length' + length path - 1) (result ++ drop 1 path)
    else fit (length' + length path) (result ++ path)

-- A path that is NULL is skipped. On an error the callers do not look at the buffer.
abbrev pub join_from : Bytes → List (Option Bytes) → Result Bytes
join_from result [] = ok result
join_from result (none ∷ paths) = join_from result paths
join_from result (some path ∷ paths) =
    join_step result path >>= (λ result'. join_from result' paths)

unfoldable pub join_paths : List (Option Bytes) → Result Bytes
join_paths paths = join_from [] paths

-- Trailing "/." and "/". The empty path, which would be read at index -1, is left alone.
unfoldable pub chop_finality : Bytes → Bytes
chop_finality path =
    let n = length path in
    if last_byte path == b'.'
    then (if n == 2 then take (n - 1) path else take (n - 2) path)
    else if last_byte path == slash
    then (if ltb 1 n then take (n - 1) path else path)
    else path

pub data Comparison : Type 0 where
  paths_are_equal path1_is_prefix path2_is_prefix paths_are_not_comparable : Comparison

abbrev pub is_equal : Comparison → Bool
is_equal Comparison.paths_are_equal = true
is_equal Comparison.path1_is_prefix = false
is_equal Comparison.path2_is_prefix = false
is_equal Comparison.paths_are_not_comparable = false

-- The first path is the second one or above it.
abbrev pub is_within : Comparison → Bool
is_within Comparison.paths_are_equal = true
is_within Comparison.path1_is_prefix = true
is_within Comparison.path2_is_prefix = false
is_within Comparison.paths_are_not_comparable = false

-- strncmp(path1, path2, n) == 0, for strings that are at least n bytes long.
unfoldable pub same_prefix : ℕ → Bytes → Bytes → Bool
same_prefix zero p q = true
same_prefix (suc n) (x ∷ p) (y ∷ q) = x == y && same_prefix n p q
same_prefix (suc n) p q = false

-- A trailing '/' is not part of the comparison.
abbrev pub compared_length : Bytes → ℕ → ℕ
compared_length path length' = if last_byte path == slash then length' - 1 else length'

by_length : ℕ → ℕ → Comparison
by_length length1 length2 =
    if length1 == length2
    then Comparison.paths_are_equal
    else if ltb length1 length2
    then Comparison.path1_is_prefix
    else Comparison.path2_is_prefix

-- From the choice of `length_min` and `sentinel` on.
unfoldable pub compare_lengths : Bytes → ℕ → Bytes → ℕ → Comparison
unfolding by_length
compare_lengths path1 length1 path2 length2 =
    let shorter = ltb length1 length2 in
    let length_min = if shorter then length1 else length2 in
    let sentinel = if shorter then byte_at path2 length1 else byte_at path1 length2 in
    if not (sentinel == slash) && not (sentinel == 0)
    then Comparison.paths_are_not_comparable
    else if not (same_prefix length_min path1 path2)
    then Comparison.paths_are_not_comparable
    else by_length length1 length2

-- compare_paths2 at the lengths that the code passes, those of the paths. An empty path fails an
-- assertion, and is not comparable where assertions are off.
unfoldable pub compare_paths : Bytes → Bytes → Comparison
compare_paths path1 path2 =
    if length path1 == 0 || length path2 == 0
    then Comparison.paths_are_not_comparable
    else compare_lengths path1 (compared_length path1 (length path1)) path2
        (compared_length path2 (length path2))

-- The path afterwards, or the error that stands for -ENAMETOOLONG as a `size_t`. The new length that
-- the code returns is that of the path.
unfoldable pub substitute_path_prefix : Bytes → ℕ → Bytes → Result Bytes
substitute_path_prefix path old_prefix_length new_prefix =
    let path_length = length path in
    let new_prefix_length = length new_prefix in
    if new_prefix_length == 1
    then (if not (path_length - old_prefix_length == 0)
        then ok (drop old_prefix_length path)
        else ok (slash ∷ []))
    else if old_prefix_length == 1
    then (if leb path_max (new_prefix_length + path_length)
        then err enametoolong
        else ok (if ltb 1 path_length then new_prefix ++ path else new_prefix))
    else if leb path_max (path_length - old_prefix_length + new_prefix_length)
    then err enametoolong
    else ok (new_prefix ++ drop old_prefix_length path)

-- The loops of pop_component: `offset` falls while it is above 1 and the byte there passes the test.
unfoldable pub back_while : (ℕ → Bool) → Bytes → ℕ → ℕ
back_while test path zero = zero
back_while test path (suc zero) = suc zero
back_while test path (suc (suc k)) =
    let lower = back_while test path (suc k) in
    if test (byte_at path (suc (suc k))) then lower else suc (suc k)

-- "/" is left alone. The empty path fails an assertion.
unfoldable pub pop_component : Bytes → Bytes
pop_component path =
    let offset = length path - 1 in
    if offset == 0
    then path
    else let last = back_while (λ b. b == slash) path offset in
      take (back_while (λ b. not (b == slash)) path last) path

pub data Finality : Type 0 where
  not_final final_normal final_slash final_dot : Finality

-- `while (**cursor == '/') (*cursor)++`; the list ends where the NUL is.
abbrev pub skip_slashes : Bytes → Bytes
skip_slashes [] = []
skip_slashes (x ∷ cursor) = if x == slash then skip_slashes cursor else x ∷ cursor

-- The bytes up to the next '/', and those from it on.
abbrev pub before_slash : Bytes → Bytes
before_slash [] = []
before_slash (x ∷ cursor) = if x == slash then [] else x ∷ before_slash cursor

abbrev pub from_slash : Bytes → Bytes
from_slash [] = []
from_slash (x ∷ cursor) = if x == slash then x ∷ cursor else from_slash cursor

abbrev pub finality_of : Bool → Bytes → Finality
finality_of want_dir [] = if want_dir then Finality.final_slash else Finality.final_normal
finality_of want_dir (x ∷ cursor) = Finality.not_final

-- The finality, the component, and the cursor afterwards.
unfoldable pub next_component : Bytes → Result (Finality × Bytes × Bytes)
next_component cursor =
    let start = skip_slashes cursor in
    let component = before_slash start in
    let behind = from_slash start in
    if leb name_max (length component)
    then err enametoolong
    else let want_dir = byte_at behind 0 == slash in
      let rest = skip_slashes behind in ok (finality_of want_dir rest, component, rest)
