-- ===== src/Shebang.antt =====
-- extract_shebang and expand_shebang of execve/shebang.c: scripts that name their interpreter.
mod Words
pub mod Line
pub mod Expand
mod Tests
use xyzterm.Common.{
  ℕ, zero, suc, ◌+◌, List, [], ◌∷◌, ◌++◌, Option, none, some, Bool, true, false, not, ◌&&◌, ◌||◌,
  ◌==◌, ltb, if◌then◌else◌, length, Result, ok, err, ◌>>=◌, Errno, enoexec, eloop,
}
use xyzterm.Path.{Bytes, last_byte}

-- What the reads of a file give: its bytes, then an error, or the end.
pub record File : Type 0 where
  pub bytes : Bytes
  pub failure : Option Errno

abbrev pub is_blank : ℕ → Bool
is_blank x = x == b' ' || x == 9

abbrev pub is_newline : ℕ → Bool
is_newline x = x == 10 || x == 13

-- A buffer up to its first NUL.
abbrev pub c_string : Bytes → Bytes
c_string [] = []
c_string (x ∷ s) = if x == 0 then [] else x ∷ c_string s

abbrev pub drop_last : Bytes → Bytes
drop_last [] = []
drop_last (x ∷ []) = []
drop_last (x ∷ y ∷ s) = x ∷ drop_last (y ∷ s)

abbrev pub at_end {ℓ} : {A : Type ℓ} → Option Errno → Result A → Result A
at_end none r = r
at_end (some e) r = err e

-- The loop over leading spaces: what is left from `tmp` on, and `current_length`. `size` is
-- BINPRM_BUF_SIZE.
abbrev pub skip_leading : ℕ → Option Errno → Bytes → ℕ → Result (Bytes × ℕ)
skip_leading size failure [] current_length = at_end failure (err enoexec)
skip_leading size failure (tmp ∷ s) current_length =
    let rest = skip_leading size failure s (current_length + 1) in
    if is_blank tmp && ltb (current_length + 1) size then rest else ok (tmp ∷ s, current_length + 1)

-- Trailing spaces, but for the first byte.
abbrev pub trim_tail : Bytes → Bytes
trim_tail [] = []
trim_tail (x ∷ s) = elim (trim_tail s) [
  | [] ↦ if is_blank x then [] else x ∷ []
  | y ∷ s' ↦ x ∷ y ∷ s'
]

abbrev pub trim : Bytes → Bytes
trim [] = []
trim (x ∷ s) = x ∷ trim_tail s

-- The loop from `argument:` on, with the bytes from `tmp` on.
abbrev pub slurp_argument : ℕ → Option Errno → Bytes → ℕ → Bytes → Bytes → Result (Bytes × Bytes)
slurp_argument size failure [] current_length argument user_path =
    at_end failure (ok (user_path, []))
slurp_argument size failure (tmp ∷ s) current_length argument user_path =
    let rest =
      slurp_argument size failure s (current_length + 1) (argument ++ (tmp ∷ [])) user_path in
    if not (ltb current_length size)
    then ok (user_path, c_string argument)
    else if is_newline tmp
    then ok (user_path, c_string (trim argument))
    else rest

-- What a byte of the path is stored as.
abbrev pub stored : ℕ → ℕ
stored tmp = if is_blank tmp then 0 else tmp

-- The loop over the path of the interpreter; at the end of the file the NUL takes the place of the byte
-- that was stored last.
abbrev pub slurp_path : ℕ → Option Errno → Bytes → ℕ → Bytes → Result (Bytes × Bytes)
slurp_path size failure [] current_length user_path =
    at_end failure (ok (c_string (drop_last user_path), []))
slurp_path size failure (tmp ∷ s) current_length user_path =
    let rest = slurp_path size failure s (current_length + 1) (user_path ++ (stored tmp ∷ [])) in
    if not (ltb current_length size) || is_newline tmp
    then ok (c_string user_path, [])
    else if not (is_blank tmp) && ltb 1 (length user_path) && last_byte user_path == 0
    then slurp_argument size failure (tmp ∷ s) current_length [] (c_string user_path)
    else rest

-- From the third byte on.
abbrev pub extract_line : ℕ → Option Errno → Bytes → Result (Option (Bytes × Bytes))
extract_line size failure s =
    skip_leading size failure s 2
    >>= (λ r. slurp_path size failure r.0 r.1 [])
    >>= (λ found. ok (some found))

abbrev pub extract_bytes : ℕ → Option Errno → Bytes → Result (Option (Bytes × Bytes))
extract_bytes size failure [] = at_end failure (ok none)
extract_bytes size failure (x ∷ []) = ok none
extract_bytes size failure (x ∷ y ∷ s) =
    if not (x == b'#') || not (y == b'!') then ok none else extract_line size failure s

-- The path of the interpreter and the argument, which may be empty, or `none`.
unfoldable pub extract_shebang : ℕ → File → Result (Option (Bytes × Bytes))
extract_shebang size file = extract_bytes size file.failure file.bytes

-- What expand_shebang asks for: translate_and_check_exec of execve/enter.c, the files of the host, and
-- the reading and writing of argv[] by execve/aoxp.c. Memory does not run out.
pub record System : Type 0 where
  pub buf_size : ℕ
  pub max_symlinks : ℕ
  pub translate_and_check_exec : Bytes → Result Bytes
  pub open_file : Bytes → Result File
  pub fetch : Result (List Bytes)
  pub push : List Bytes → Result (List Bytes)

-- argv[] without its end: the first string gives way to the interpreter, the argument if there is
-- one, and the script.
abbrev pub rest_of : List Bytes → List Bytes
rest_of [] = []
rest_of (a ∷ args) = args

abbrev pub expanded : Bytes → Bytes → Bytes → List Bytes → List Bytes
expanded user_path [] old_user_path argv = user_path ∷ old_user_path ∷ rest_of argv
expanded user_path (x ∷ argument) old_user_path argv =
    user_path ∷ (x ∷ argument) ∷ old_user_path ∷ rest_of argv

-- argv[] is fetched only once.
abbrev pub fetched : System → Option (List Bytes) → Result (List Bytes)
fetched m none = m.fetch
fetched m (some argv) = ok argv

-- The host path and the user path of the program, and argv[] where there was a shebang.
abbrev pub Program : Type 0
Program = Bytes × Bytes × Option (List Bytes)

abbrev pub extracted : System → Bytes → Result (Option (Bytes × Bytes))
extracted m host_path = m.open_file host_path >>= (λ file. extract_shebang m.buf_size file)

-- The rounds that are left of MAXSYMLINKS.
abbrev pub expand_loop : ℕ → System → Bytes → Option (List Bytes) → Result Program
expand_loop zero m user_path argv = err eloop
expand_loop (suc left) m user_path argv = m.translate_and_check_exec user_path >>= (λ host_path.
    extracted m host_path >>= (λ found. elim found [
      | none ↦ ok (host_path, user_path, argv)
      | some (interpreter, argument) ↦ m.translate_and_check_exec interpreter >>= (λ host_path'.
          fetched m argv >>= (λ args.
            expand_loop left m interpreter (some (expanded interpreter argument user_path args))))
    ]))

abbrev pub pushed : System → Program → Result Program
pushed m (host_path, user_path, none) = ok (host_path, user_path, none)
pushed m (host_path, user_path, some argv) =
    m.push argv >>= (λ argv'. ok (host_path, user_path, some argv'))

unfoldable pub expand_shebang : System → Bytes → Result Program
expand_shebang m user_path = expand_loop m.max_symlinks m user_path none >>= (λ r. pushed m r)
