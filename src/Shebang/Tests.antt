-- ===== src/Shebang/Tests.antt =====
-- A script that is run by another script, and lines that are cut short.
use xyzterm.Common.{
  ℕ, ◌≡◌, ◌≢◌, ◌==◌, refl, List, [], ◌∷◌, none, some, false, if◌then◌else◌, ok, err, enoexec, eloop,
  arith,
}
use xyzterm.Path.{Bytes}
use xyzterm.Path.Compare.{same_name}
use xyzterm.Shebang.{File, System, extracted, extract_shebang, expand_shebang}
use xyzterm.Shebang.Words.{IsWord}
use xyzterm.Shebang.Line.{extract_shebang-line}
use xyzterm.Shebang.Expand.{Scripts, Named, expand_shebang-Scripts, expand_shebang-eloop}

abbrev file_of : Bytes → File
file_of bytes = record { bytes = bytes; failure = none }

not_zero : (x : ℕ) → (x == 0) ≡ false → x ≢ 0
not_zero x h e = absurd (ground arith)

sh-IsWord : IsWord (b's' ∷ b'h' ∷ [])
sh-IsWord = (refl, refl, not_zero b's' refl, (refl, refl, not_zero b'h' refl, tt))

-- "#! sh -x y " and "#! sh ".
extract_shebang-line_example :
    (extract_shebang 256 (file_of (b'#' ∷ b'!' ∷ b' ' ∷ b's' ∷ b'h' ∷ b' ' ∷ 10 ∷ []))
      ≡ ok (some (b's' ∷ b'h' ∷ [], [])))
    × (extract_shebang 256
          (file_of (b'#' ∷ b'!' ∷ b' ' ∷ b's' ∷ b'h' ∷ b' ' ∷ b'-' ∷ b' ' ∷ b'y' ∷ b' ' ∷ 10 ∷ []))
        ≡ ok (some (b's' ∷ b'h' ∷ [], b'-' ∷ b' ' ∷ b'y' ∷ [])))
extract_shebang-line_example =
    extract_shebang-line 256 none (b' ' ∷ []) b's' (b'h' ∷ []) (b' ' ∷ []) b'-' (b' ' ∷ b'y' ∷ [])
      (b' ' ∷ []) 10 [] (refl, tt) sh-IsWord (refl, tt) (omega arith) refl
      (refl, not_zero b'-' refl, (refl, not_zero b' ' refl, (refl, not_zero b'y' refl, tt))) refl
      (refl, tt) refl (omega arith)

-- At the end of the file the last byte of the name is lost, and an argument.
cut_short :
    (extract_shebang 256 (file_of (b'#' ∷ b'!' ∷ b's' ∷ b'h' ∷ [])) ≡ ok (some (b's' ∷ [], [])))
    × (extract_shebang 256 (file_of (b'#' ∷ b'!' ∷ b's' ∷ b'h' ∷ b' ' ∷ b'x' ∷ []))
        ≡ ok (some (b's' ∷ b'h' ∷ [], [])))
    × (extract_shebang 256 (file_of (b'#' ∷ b'!' ∷ [])) ≡ err enoexec)
unfolding extract_shebang
cut_short = (refl, refl, refl)

-- "a" is a script for "b", which is a script for "c" with the argument "x", which is a program.
abbrev file_at : Bytes → File
file_at path =
    if same_name path (b'a' ∷ [])
    then file_of (b'#' ∷ b'!' ∷ b'b' ∷ 10 ∷ [])
    else if same_name path (b'b' ∷ [])
    then file_of (b'#' ∷ b'!' ∷ b'c' ∷ b' ' ∷ b'x' ∷ 10 ∷ [])
    else file_of (127 ∷ b'E' ∷ [])

abbrev system : ℕ → System
system max_symlinks = record {
  buf_size = 256;
  max_symlinks = max_symlinks;
  translate_and_check_exec = (λ path. ok path);
  open_file = (λ path. ok (file_at path));
  fetch = ok ((b'0' ∷ []) ∷ (b'1' ∷ []) ∷ []);
  push = (λ argv. ok argv);
}

abbrev steps : List Named
steps = (b'b' ∷ [], []) ∷ (b'c' ∷ [], b'x' ∷ []) ∷ []

both : (max_symlinks : ℕ) → Scripts (system max_symlinks) (b'a' ∷ []) steps (b'c' ∷ [])
unfolding extract_shebang
both max_symlinks = Scripts.a_script (b'a' ∷ []) (b'b' ∷ []) (b'b' ∷ []) [] refl refl refl (
    Scripts.a_script (b'b' ∷ []) (b'c' ∷ []) (b'c' ∷ []) (b'x' ∷ []) refl refl refl
      Scripts.no_script)

is_program : extracted (system 40) (b'c' ∷ []) ≡ ok none
unfolding extract_shebang
is_program = refl

expand_shebang-Scripts_example :
    expand_shebang (system 40) (b'a' ∷ [])
    ≡ ok (
      b'c' ∷ [],
      b'c' ∷ [],
      some ((b'c' ∷ []) ∷ (b'x' ∷ []) ∷ (b'b' ∷ []) ∷ (b'a' ∷ []) ∷ (b'1' ∷ []) ∷ []),
    )
expand_shebang-Scripts_example =
    expand_shebang-Scripts (system 40) (b'a' ∷ []) steps (b'c' ∷ []) (b'c' ∷ [])
      ((b'0' ∷ []) ∷ (b'1' ∷ []) ∷ []) (both 40) refl is_program refl (λ argv. refl) (omega arith)

expand_shebang-eloop_example : expand_shebang (system 2) (b'a' ∷ []) ≡ err eloop
expand_shebang-eloop_example =
    expand_shebang-eloop (system 2) (b'a' ∷ []) steps (b'c' ∷ []) ((b'0' ∷ []) ∷ (b'1' ∷ []) ∷ [])
      (both 2) refl refl
