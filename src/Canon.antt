-- ===== src/Canon.antt =====
-- canonicalize and substitute_binding_stat of path/canon.c: a path of the guest without links, "." and
-- ".."
mod Fits
mod Rounds
mod Spelling
mod Loop
pub mod Resolve
pub mod Ends
pub mod Lexical
mod Tests
use xyzterm.Common.{
  ℕ, zero, suc, ◌+◌, List, [], ◌∷◌, Option, none, some, Bool, true, false, not, ◌&&◌, ◌||◌, ◌==◌,
  ltb, leb, if◌then◌else◌, length, Result, ok, err, ◌>>=◌, Errno, enoent, enotdir, eacces, eloop,
  enametoolong, einval, ◌++◌, is_digit, skip_spaces,
}
use xyzterm.Common.Int.{ℤ, pos, negsuc}
use xyzterm.Path.{
  Bytes, path_max, slash, byte_at, Comparison, is_equal, is_within, compare_paths, join_paths,
  pop_component, Finality, next_component,
}
use xyzterm.Path.Compare.{same_name}
use xyzterm.Binding.{Bindings, Side, substitute_binding}
use xyzterm.Proc.{proc, Action, Monitor, readlink_proc, readlink_proc2}
use xyzterm.Detranslate.{detranslate_path}
use xyzterm.Host.{Host, is_final, substitute_binding_stat}

abbrev pub is_final_normal : Finality → Bool
is_final_normal Finality.final_normal = true
is_final_normal Finality.not_final = false
is_final_normal Finality.final_slash = false
is_final_normal Finality.final_dot = false

-- What one round of the loop comes to: a return, the next round, or a link to be canonicalized.
pub data Turn : Type 0 where
  returns : Result Bytes → Turn
  goes_on : Finality → Bytes → Turn
  follows : Finality → Bytes → Turn

abbrev pub dot : Bytes
dot = b'.' ∷ []

abbrev pub dot_dot : Bytes
dot_dot = b'.' ∷ b'.' ∷ []

-- The path that is looked at for being /proc: the guest path, or what a binding makes of it.
abbrev pub proc_base : Bindings → Bytes → Comparison × Bytes
proc_base s guest_path =
    if is_within (compare_paths proc guest_path)
    then (compare_paths proc guest_path, guest_path)
    else let alias_base = (substitute_binding s Side.guest_side guest_path).1 in
      if not (same_name alias_base guest_path)
      then (compare_paths proc alias_base, alias_base)
      else (compare_paths proc guest_path, guest_path)

abbrev pub proc_action : Host → Bytes → Comparison × Bytes → Result Action
proc_action h component (comparison, base) =
    if is_within comparison
    then readlink_proc h.monitor base component comparison
    else ok Action.default_action

abbrev pub followed : Finality → Result (ℕ × Bytes) → Turn
followed finality (err e) = Turn.returns (err e)
followed finality (ok r) = Turn.follows finality r.1

abbrev pub after_readlink : Host → Bindings → Finality → Bytes → Result Bytes → Turn
after_readlink h s finality host_path (err e) = Turn.returns (err e)
after_readlink h s finality host_path (ok target) =
    if leb path_max (length target)
    then Turn.returns (err enametoolong)
    else followed finality (
        detranslate_path s (λ path referer. readlink_proc2 h.monitor referer) target
          (some host_path))

-- A link that is none of those of /proc.
abbrev pub linked : Host → Bindings → Finality → Bytes → Turn
linked h s finality host_path = after_readlink h s finality host_path (h.readlink host_path)

abbrev pub dereferenced : Host → Bindings → Finality → Bytes → Result Action → Turn
dereferenced h s finality host_path (err e) = Turn.returns (err e)
dereferenced h s finality host_path (ok Action.default_action) = linked h s finality host_path
dereferenced h s finality host_path (ok (Action.canonicalize_it path)) = Turn.follows finality path
dereferenced h s finality host_path (ok (Action.dont_canonicalize path)) =
    if is_final_normal finality then Turn.returns (ok path) else linked h s finality host_path

-- By what substitute_binding_stat made of the joined path.
abbrev pub after_stat :
    Host → Bindings → Bool → Bytes → Finality → Bytes → Bytes → Result (Bool × Bytes) → Turn
after_stat h s deref_final guest_path finality component scratch_path (err e) = Turn.returns (err e)
after_stat h s deref_final guest_path finality component scratch_path (ok (is_link, host_path)) =
    if not is_link || (is_final_normal finality && not deref_final)
    then Turn.goes_on finality scratch_path
    else dereferenced h s finality host_path (proc_action h component (proc_base s guest_path))

abbrev pub after_join : Host → Bindings → ℕ → Bool → Bytes → Finality → Bytes → Result Bytes → Turn
after_join h s recursion_level deref_final guest_path finality component (err e) =
    Turn.returns (err e)
after_join h s recursion_level deref_final guest_path finality component (ok scratch_path) =
    after_stat h s deref_final guest_path finality component scratch_path
      (substitute_binding_stat h s finality recursion_level scratch_path)

-- A component that is neither "." nor "..".
abbrev pub named : Host → Bindings → ℕ → Bool → Bytes → Finality → Bytes → Turn
named h s recursion_level deref_final guest_path finality component =
    after_join h s recursion_level deref_final guest_path finality component
      (join_paths (some guest_path ∷ some component ∷ []))

abbrev pub turn : Host → Bindings → ℕ → Bool → Bytes → Finality → Bytes → Turn
turn h s recursion_level deref_final guest_path finality component =
    if same_name component dot
    then Turn.goes_on (if is_final finality then Finality.final_dot else finality) guest_path
    else if same_name component dot_dot
    then Turn.goes_on (if is_final finality then Finality.final_slash else finality)
        (pop_component guest_path)
    else named h s recursion_level deref_final guest_path finality component

-- The exit at the first level: a terminating "/" or "/." is put back.
abbrev pub finish : ℕ → Finality → Bytes → Result Bytes
finish (suc recursion_level) finality guest_path = ok guest_path
finish zero Finality.final_slash guest_path = join_paths (some guest_path ∷ some [] ∷ [])
finish zero Finality.final_dot guest_path = join_paths (some guest_path ∷ some dot ∷ [])
finish zero Finality.final_normal guest_path = ok guest_path
finish zero Finality.not_final guest_path = ok guest_path

-- The tests at the start, and the guest path that the loop starts from.
abbrev pub entered : Host → ℕ → Bytes → Bytes → Result Bytes
entered h recursion_level user_path guest_path =
    if ltb h.max_symlinks recursion_level
    then err eloop
    else if leb path_max (length guest_path)
    then err enametoolong
    else if not (byte_at user_path 0 == slash)
    then (if not (byte_at guest_path 0 == slash) then err einval else ok guest_path)
    else ok (slash ∷ [])

-- What is behind a string in front of another one.
abbrev pub behind_string : Bytes → Bytes → Option Bytes
behind_string [] s = some s
behind_string (x ∷ p) [] = none
behind_string (x ∷ p) (y ∷ s) = let rest = behind_string p s in if x == y then rest else none

abbrev pub skip_digits : Bytes → Bytes
skip_digits [] = []
skip_digits (c ∷ s) = let rest = skip_digits s in if is_digit c then rest else c ∷ s

abbrev pub behind_digits : Bytes → Option Bytes
behind_digits [] = none
behind_digits (c ∷ s) = if is_digit c then some (skip_digits s) else none

abbrev pub behind_sign : Bytes → Option Bytes
behind_sign [] = none
behind_sign (c ∷ s) = if c == b'-' || c == b'+' then behind_digits s else behind_digits (c ∷ s)

-- What is behind a number that scanf reads.
abbrev pub behind_number : Bytes → Option Bytes
behind_number s = behind_sign (skip_spaces s)

abbrev pub and_then : Option Bytes → (Bytes → Option Bytes) → Option Bytes
and_then none f = none
and_then (some s) f = f s

abbrev pub is_some_path : Option Bytes → Bool
is_some_path none = false
is_some_path (some s) = true

abbrev pub fd_directory : Bytes
fd_directory = slash ∷ b'f' ∷ b'd' ∷ slash ∷ []

-- sscanf(guest_path, "/proc/%*d/fd/%d", ...) == 1.
abbrev pub is_fd_link : Bytes → Bool
is_fd_link guest_path = is_some_path (
    and_then
      (and_then (and_then (behind_string (proc ++ (slash ∷ [])) guest_path) behind_number)
        (behind_string fd_directory))
      behind_number)

-- The assertion: the path is no link any more, unless it is that of a file descriptor.
abbrev pub asserted : Bytes → Result (Bool × Bytes) → Option (Result Bytes)
asserted guest_path (err e) = some (err e)
asserted guest_path (ok (is_link, host_path)) =
    if not is_link || is_fd_link guest_path then some (ok guest_path) else none

-- After the recursion: a link that leads to where it stands, and the check of what it led to; `none` is
-- the failed assertion.
abbrev pub link_status : Host → Bindings → ℕ → Finality → Bytes → Bytes → Option (Result Bytes)
link_status h s recursion_level finality guest_path_before guest_path =
    if same_name guest_path_before guest_path
    then some (err eloop)
    else asserted guest_path (substitute_binding_stat h s finality recursion_level guest_path)

-- How a run goes on: `none` if the fuel does not last, `some none` if an assertion fails.
abbrev pub Run : Type 0
Run = Option (Option (Result Bytes))

-- The condition of the loop: the exit, or the rounds for the rest.
abbrev pub continued : ℕ → Finality → (Bytes → Run) → Bytes → Run
continued recursion_level finality again guest_path = elim (is_final finality) [
  | true ↦ some (some (finish recursion_level finality guest_path))
  | false ↦ again guest_path
]

abbrev pub after_status : ℕ → Finality → (Bytes → Run) → Option (Result Bytes) → Run
after_status recursion_level finality again none = some none
after_status recursion_level finality again (some (err e)) = some (some (err e))
after_status recursion_level finality again (some (ok guest_path)) =
    continued recursion_level finality again guest_path

-- By what the recursion on a link's target gave.
abbrev pub after_link : Host → Bindings → ℕ → Finality → (Bytes → Run) → Bytes → Run → Run
after_link h s recursion_level finality again guest_path_before none = none
after_link h s recursion_level finality again guest_path_before (some none) = some none
after_link h s recursion_level finality again guest_path_before (some (some (err e))) =
    some (some (err e))
after_link h s recursion_level finality again guest_path_before (some (some (ok guest_path))) =
    after_status recursion_level finality again
      (link_status h s recursion_level finality guest_path_before guest_path)

-- A call of canonicalize: the tests, then the loop.
abbrev pub called : (Bytes → Run) → Result Bytes → Run
called loop (err e) = some (some (err e))
called loop (ok guest_path) = loop guest_path

-- `again` and `again_after_link` stand for the rounds for the rest, `loop` for the one on a target at the
-- level that is given.
abbrev pub after_turn :
    Host
    → Bindings
    → ℕ
    → ℕ
    → (Bytes → Run)
    → (Bytes → Run)
    → (ℕ → Bytes → Bytes → Run)
    → Bytes
    → Turn
    → Run
after_turn h s recursion_level level' again again_after_link loop guest_path (Turn.returns r) =
    some (some r)
after_turn h s recursion_level level' again again_after_link loop guest_path
      (Turn.goes_on finality guest_path') =
    continued recursion_level finality again guest_path'
after_turn h s recursion_level level' again again_after_link loop guest_path
      (Turn.follows finality target) =
    after_link h s recursion_level finality again_after_link guest_path
      (called (loop level' target) (entered h level' target guest_path))

-- The loop of canonicalize, and its calls of itself, which add `symlinks_followed` to the level. `none`
-- if the fuel does not last.
unfoldable pub canonicalize_loop : ℕ → Host → Bindings → ℕ → ℕ → Bool → Bytes → Bytes → Run
canonicalize_loop zero h s recursion_level symlinks_followed deref_final cursor guest_path = none
canonicalize_loop (suc fuel) h s recursion_level symlinks_followed deref_final cursor guest_path =
    elim (next_component cursor) [
      | err e ↦ some (some (err e))
      | ok (finality, component, rest) ↦
          after_turn h s recursion_level (recursion_level + suc symlinks_followed)
            (λ p. canonicalize_loop fuel h s recursion_level symlinks_followed deref_final rest p)
            (λ p.
              canonicalize_loop fuel h s recursion_level (suc symlinks_followed) deref_final rest p)
            (λ level' target p. canonicalize_loop fuel h s level' 0 true target p) guest_path
            (turn h s recursion_level deref_final guest_path finality component)
    ]

unfoldable pub canonicalize : ℕ → Host → Bindings → Bytes → Bool → Bytes → ℕ → Run
unfolding canonicalize_loop
canonicalize fuel h s user_path deref_final guest_path recursion_level =
    called (λ p. canonicalize_loop fuel h s recursion_level 0 deref_final user_path p)
      (entered h recursion_level user_path guest_path)
