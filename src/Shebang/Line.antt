-- ===== src/Shebang/Line.antt =====
-- extract_shebang on a line that is well formed.
use xyzterm.Common.{
  or_true, ℕ, ◌+◌, ◌<◌, ◌≤◌, ◌≡◌, refl, ap, ◌∙◌, [], ◌∷◌, ◌++◌, Option, some, true, false, not, ltb,
  length, length-append, Result, ok, ◌>>=◌, arith, Errno,
}
use xyzterm.Path.{Bytes}
use xyzterm.Shebang.{is_blank, is_newline, c_string, slurp_path, extract_bytes, extract_shebang}
use xyzterm.Shebang.Words.{
  AreBlank, IsWord, IsLine, EndsFull, skip_leading-AreBlank, slurp_path-IsWord, slurp_path-AreBlank,
  slurp_argument-IsLine, c_string-IsWord, c_string-IsLine, trim-EndsFull, IsLine-append,
  path_then_argument,
}

-- Up to the name of the interpreter.
extract_bytes_to :
    (size : ℕ) (failure : Option Errno) (lead : Bytes) (x : ℕ) (word rest : Bytes)
    → AreBlank lead
    → IsWord (x ∷ word)
    → 3 + length lead + length (x ∷ word) < size
    → extract_bytes size failure (b'#' ∷ b'!' ∷ (lead ++ ((x ∷ word) ++ rest)))
      ≡ slurp_path size failure rest (3 + length lead + length (x ∷ word)) (x ∷ word)
        >>= (λ found. ok (some found))
extract_bytes_to size failure lead x word rest b w lt =
    let e : 2 + length lead + 1 ≡ 3 + length lead = omega arith in
    let to_some : Result (Bytes × Bytes) → Result (Option (Bytes × Bytes)) =
      λ r. r >>= (λ found. ok (some found)) in
    ap (λ r. r >>= (λ r'. slurp_path size failure r'.0 r'.1 []) >>= (λ found. ok (some found)))
      (skip_leading-AreBlank size failure lead x (word ++ rest) 2 b w.0 (omega arith))
    ∙ ap (λ n. to_some (slurp_path size failure ((x ∷ word) ++ rest) n [])) e
    ∙ ap to_some
        (slurp_path-IsWord size failure (x ∷ word) rest (3 + length lead) [] w (omega arith) refl)

-- The end of the line right behind the name, or blanks.
without_argument :
    (size : ℕ) (failure : Option Errno) (word sep : Bytes) (nl : ℕ) (rest : Bytes) (n : ℕ)
    → IsWord word
    → AreBlank sep
    → is_newline nl ≡ true
    → n + length sep ≤ size
    → slurp_path size failure (sep ++ (nl ∷ rest)) n word ≡ ok (word, [])
without_argument size failure word sep nl rest n w b h le =
    slurp_path-AreBlank size failure sep (nl ∷ rest) n word b le
    ∙ rw (h, or_true (not (ltb (n + length sep) size)))
        (ap (λ p. ok (p, [])) (c_string-IsWord word (length sep) w))

with_argument :
    (size : ℕ) (failure : Option Errno) (word sep : Bytes) (x : ℕ) (arg trail : Bytes) (nl : ℕ)
    (rest : Bytes) (n : ℕ)
    → IsWord word
    → 0 < length word
    → AreBlank sep
    → 0 < length sep
    → is_blank x ≡ false
    → IsLine (x ∷ arg)
    → EndsFull (x ∷ arg)
    → AreBlank trail
    → is_newline nl ≡ true
    → n + length sep + length (x ∷ arg) + length trail < size
    → slurp_path size failure (sep ++ (((x ∷ arg) ++ trail) ++ (nl ∷ rest))) n word
      ≡ ok (word, x ∷ arg)
with_argument size failure word [] x arg trail nl rest n w pos b some_sep bx l full bt h lt =
    absurd (omega arith)
with_argument size failure word (y ∷ sep) x arg trail nl rest n w pos b some_sep bx l full bt h lt =
    let m = n + length (y ∷ sep) in
    let line = (x ∷ arg) ++ trail in
    let fits : m + length line < size = omega (arith, length-append (x ∷ arg) trail) in
    slurp_path-AreBlank size failure (y ∷ sep) (line ++ (nl ∷ rest)) n word b (omega arith)
    ∙ path_then_argument size failure word (length sep) x ((arg ++ trail) ++ (nl ∷ rest)) m w pos bx
        l.0 (omega arith)
    ∙ slurp_argument-IsLine size failure line nl rest m [] word (IsLine-append (x ∷ arg) trail l bt)
        h fits
    ∙ ap (λ a. ok (word, c_string a)) (trim-EndsFull (x ∷ arg) trail full bt)
    ∙ ap (λ a. ok (word, a)) (c_string-IsLine (x ∷ arg) l)

-- From "#!", blanks, a name, blanks and an end of line extract_shebang gives the name and no argument;
-- with a blank, an argument and blanks before the end of line it gives the argument too. The name has no
-- blank, the argument may have some inside, none has a NUL, the other blanks may be none, and the line is
-- shorter than the buffer.
pub extract_shebang-line :
    (size : ℕ) (failure : Option Errno) (lead : Bytes) (w : ℕ) (word sep : Bytes) (x : ℕ)
    (arg trail : Bytes) (nl : ℕ) (rest : Bytes)
    → AreBlank lead
    → IsWord (w ∷ word)
    → AreBlank sep
    → 0 < length sep
    → is_blank x ≡ false
    → IsLine (x ∷ arg)
    → EndsFull (x ∷ arg)
    → AreBlank trail
    → is_newline nl ≡ true
    → 3 + length lead + length (w ∷ word) + length sep + length (x ∷ arg) + length trail < size
    → (extract_shebang size (record {
      bytes = b'#' ∷ b'!' ∷ (lead ++ ((w ∷ word) ++ (trail ++ (nl ∷ rest))));
      failure = failure;
    })
        ≡ ok (some (w ∷ word, [])))
      × (extract_shebang size (record {
        bytes =
            b'#' ∷ b'!' ∷ (lead ++ ((w ∷ word) ++ (sep ++ (((x ∷ arg) ++ trail) ++ (nl ∷ rest)))));
        failure = failure;
      })
          ≡ ok (some (w ∷ word, x ∷ arg)))
unfolding extract_shebang
extract_shebang-line size failure lead w word sep x arg trail nl rest bl hw bs pos bx l full bt h
      lt =
    let n = 3 + length lead + length (w ∷ word) in
    let to_some : Result (Bytes × Bytes) → Result (Option (Bytes × Bytes)) =
      λ r. r >>= (λ found. ok (some found)) in
    (
      extract_bytes_to size failure lead w word (trail ++ (nl ∷ rest)) bl hw (omega arith)
          ∙ ap to_some
              (without_argument size failure (w ∷ word) trail nl rest n hw bt h (omega arith)),
      extract_bytes_to size failure lead w word (sep ++ (((x ∷ arg) ++ trail) ++ (nl ∷ rest))) bl hw
            (omega arith)
          ∙ ap to_some (
              with_argument size failure (w ∷ word) sep x arg trail nl rest n hw (omega arith) bs
                pos bx l full bt h (omega arith)),
    )
